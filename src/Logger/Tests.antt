-- ===== src/Logger/Tests.antt =====
-- The logger at concrete entries.
use mmotcpfighter.Base.{
  ℕ, zero, suc, ap, ◌≡◌, refl, List, [], ◌∷◌, length, pos, ◌≤ℤ◌, ◌<ℤ◌, ok, arith, ◌++◌, true, false,
}
use mmotcpfighter.Logger.{Logger, Texts, Entry, textfile, log}
use mmotcpfighter.Logger.Line.{AreShort}
use mmotcpfighter.Logger.Folder.{syslog_directory, syslog_directory_lem}
use mmotcpfighter.Logger.Loop.{Writes, log_lem}

abbrev logger : Logger
logger = record {
  log_level = pos 1;
  log_count = 0;
  cur_size = 3000;
  log_buf = [];
  clock_reads = 0;
  file_lines = [];
  console_lines = [];
}

abbrev texts : Texts
texts = record {
  head_text = λ h. h;
  time_text = λ t. b'1' ∷ [];
  level_text = λ z c. b'D' ∷ [];
  grown_text = λ n. b'g' ∷ [];
  system_head = b's' ∷ [];
}

texts-AreShort : AreShort texts
texts-AreShort = record {
  some_time = λ t. omega arith;
  time = λ t. omega arith;
  level = λ z c. omega arith;
  grown = λ n. omega arith;
  system = omega arith;
}

abbrev repeated : ℕ → List ℕ
repeated zero = []
repeated (suc n) = b'a' ∷ repeated n

-- A message for which the buffer has to be doubled.
abbrev entry : Entry
entry = record { head = b'n' ∷ []; level = pos 2; output = textfile; message = repeated 4000 }

length-repeated : (n : ℕ) → length (repeated n) ≡ n
length-repeated zero = refl
length-repeated (suc n) = ap suc (length-repeated n)

log_lem_example :
    (pos 1 ≤ℤ pos 2 → Writes texts 1 entry logger (log 2 texts entry logger))
    × (pos 2 <ℤ pos 1 → log 2 texts entry logger ≡ ok logger)
log_lem_example =
    log_lem texts 1 2 entry logger texts-AreShort (λ e. omega arith) (omega arith, omega arith)
      (omega arith) (let size = length-repeated 4000 in omega arith) (omega arith) (omega arith)

abbrev drive : List ℕ
drive = b'C' ∷ b':' ∷ []

syslog_directory_lem_example :
    syslog_directory
      (λ f. false)
      (λ f. true)
      (drive ++ (92 ∷ ((b'b' ∷ []) ++ (92 ∷ (b'm' ∷ [])))))
      (b'L' ∷ [])
    ≡ ok (drive ++ (92 ∷ (b'L' ∷ [])))
syslog_directory_lem_example =
    syslog_directory_lem (λ f. false) (λ f. true) drive (b'b' ∷ []) (b'm' ∷ []) (b'L' ∷ []) refl
      refl (omega arith) (omega arith)
