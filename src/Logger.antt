-- ===== src/Logger.antt =====
-- Logger.cpp: the log level, and `LOG`, which makes up a line in a buffer that it doubles where the line does not fit.
-- The files themselves and the locks are not modelled; a file is the lines that are added to it. Each thread has a
-- buffer of its own: the model is that of one thread.
--
-- The texts that the formats of `StringCchPrintf` give are parameters, and so is the clock.
pub mod Line
pub mod Loop
pub mod Level
pub mod Folder
mod Tests
use mmotcpfighter.Base.{
  ℕ, zero, suc, ◌+◌, ◌-◌, ◌*◌, ◌%◌, ◌^◌, Bool, true, false, not, ◌&&◌, List, [], ◌∷◌, ◌++◌, ◌==◌,
  ltb, if◌then◌else◌, length, take, ℤ, pos, ◌-ℤ◌, leb_ℤ, ltb_ℤ, Outcome, ok, err, ◌>>=◌,
  null_pointer, out_of_bounds, out_of_fuel, debug_break,
}

-- `LOG_LEVEL`
abbrev pub debug : ℤ
debug = pos 0

abbrev pub system : ℤ
system = pos 1

abbrev pub error : ℤ
error = pos 2

abbrev pub console : ℕ
console = 3

abbrev pub textfile : ℕ
textfile = 4

abbrev pub local_log_buf_size : ℕ
local_log_buf_size = 3000

-- `g_logLevel`, `g_dwLogCount`, `g_CurSize` and the text in `g_pLogBuf`; how often the clock has been read; the lines that have
-- been added to files, each with the name that makes up the file's, and those that have gone to the console.
pub record Logger : Type 0 where
  pub log_level : ℤ
  pub log_count : ℕ
  pub cur_size : ℕ
  pub log_buf : List ℕ
  pub clock_reads : ℕ
  pub file_lines : List (List ℕ × List ℕ)
  pub console_lines : List (List ℕ)

unfoldable pub set_log_level : ℤ → Logger → Logger
set_log_level level l =
    if leb_ℤ debug level && leb_ℤ level error then record l { log_level = level } else l

-- `++*(DWORD*)g_logLevel` writes to the address that the level is taken for.
unfoldable pub increase_log_level : Logger → Outcome (ℤ × Logger)
increase_log_level l =
    if leb_ℤ debug l.log_level && leb_ℤ l.log_level system
    then if leb_ℤ l.log_level debug then err null_pointer else err out_of_bounds
    else ok (l.log_level, l)

unfoldable pub decrease_log_level : Logger → ℤ × Logger
decrease_log_level l =
    if leb_ℤ system l.log_level && leb_ℤ l.log_level error
    then (l.log_level -ℤ pos 1, record l { log_level = l.log_level -ℤ pos 1 })
    else (l.log_level, l)

-- What the formats of `LOG` give: for a name, for the time at which the clock is read, for a level and a count, and for the size
-- that the buffer grows to.
pub record Texts : Type 0 where
  pub head_text : List ℕ → List ℕ
  pub time_text : ℕ → List ℕ
  pub level_text : ℤ → ℕ → List ℕ
  pub grown_text : ℕ → List ℕ
  pub system_head : List ℕ

-- The arguments of `LOG`, with the message made up.
pub record Entry : Type 0 where
  pub head : List ℕ
  pub level : ℤ
  pub output : ℕ
  pub message : List ℕ

-- `StringCchPrintf` behind the text that is in a buffer of the given size: whether the text fits, with its end, and what the
-- buffer then holds.
unfoldable pub append_text : ℕ → List ℕ → List ℕ → Bool × List ℕ
append_text size text more =
    if ltb (length text + length more) size
    then (true, text ++ more)
    else (false, take (size - 1) (text ++ more))

-- The end of a pass: the line goes to the console or to the file.
unfoldable pub put_line : Entry → Logger → Logger
put_line e l =
    if e.output == console
    then record l { console_lines = l.console_lines ++ (l.log_buf ∷ []) }
    else record l { file_lines = l.file_lines ++ ((e.head, l.log_buf) ∷ []) }

-- The message, behind what the buffer holds.
unfoldable pub add_message : Entry → Logger → Outcome (Bool × Logger)
unfolding append_text put_line
add_message e l =
    let (fits, text) = append_text l.cur_size l.log_buf e.message in
    if fits
    then ok (true, put_line e (record l { log_buf = text }))
    else ok (false, record l { log_buf = text })

-- The level and the count, and what follows.
unfoldable pub add_level : Texts → Entry → Logger → Outcome (Bool × Logger)
unfolding append_text add_message
add_level tx e l =
    let count = (l.log_count + 1) % 2 ^ 32 in
    let (fits, text) = append_text l.cur_size l.log_buf (tx.level_text e.level count) in
    if not (leb_ℤ debug e.level && leb_ℤ e.level error)
    then err debug_break
    else if fits
    then add_message e (record l { log_count = count; log_buf = text })
    else ok (false, record l { log_count = count; log_buf = text })

-- One pass of the loop of `LOG`: the result says whether the buffer was large enough. What becomes of the name is not looked at.
unfoldable pub log_pass : Texts → Entry → Logger → Outcome (Bool × Logger)
unfolding append_text add_level
log_pass tx e l =
    let (_, head) = append_text l.cur_size [] (tx.head_text e.head) in
    let (fits, text) = append_text l.cur_size head (tx.time_text l.clock_reads) in
    let l' = record l { clock_reads = l.clock_reads + 1; log_buf = text } in
    if fits then add_level tx e l' else ok (false, l')

-- The level of the logger lets an entry through.
unfoldable pub filtered : (Entry → Logger → Outcome Logger) → Entry → Logger → Outcome Logger
filtered rest e l = if ltb_ℤ e.level l.log_level then ok l else rest e l

-- The message of `ExceptLogBufInSuf`.
abbrev pub grown_entry : Texts → ℕ → Entry
grown_entry tx size = record {
  head = tx.system_head;
  level = error;
  output = textfile;
  message = tx.grown_text size;
}

-- `g_CurSize` is an `int`.
abbrev pub size_limit : ℕ
size_limit = 2 ^ 31

-- The loop of `LOG`, and the recursive call in `ExceptLogBufInSuf`. What follows where the doubled size overflows is not
-- modelled: it counts as a fault.
log_loop : ℕ → Texts → Entry → Logger → Outcome Logger
log_loop zero tx e l = err out_of_fuel
log_loop (suc fuel) tx e l = do
  (done, l') ← log_pass tx e l
  let size = l'.cur_size * 2
  let retry : Outcome Logger = do
    l'' ←
        filtered (log_loop fuel tx) (grown_entry tx size)
          (record l' { cur_size = size; log_buf = [] })
    log_loop fuel tx e l''
  if done then ok l' else if ltb size size_limit then retry else err out_of_bounds

pub log : ℕ → Texts → Entry → Logger → Outcome Logger
unfolding filtered
log fuel tx = filtered (log_loop fuel tx)
