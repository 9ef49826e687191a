-- ===== src/Logger/Folder.antt =====
-- `GetParentDir` and `SYSLOG_DIRECTORY` of Logger.cpp: the folder of the log files.
use mmotcpfighter.Base.{
  ℕ, zero, suc, ◌+◌, ◌-◌, ◌<◌, ◌≤◌, ◌≡◌, refl, sym, ap, Bool, false, ◌||◌, Option, none, some, List,
  [], ◌∷◌, ◌++◌, append_assoc, ◌==◌, if◌then◌else◌, length, length-append, take, Outcome, ok, err,
  debug_break, Bool-cases, inl, inr, arith,
}

abbrev pub max_path : ℕ
max_path = 260

-- The character that parts the names of a path.
abbrev backslash : ℕ
backslash = 92

-- What stands in front of the last backslash, if there is one.
unfoldable before_last : List ℕ → Option (List ℕ)
before_last [] = none
before_last (c ∷ cs) = elim (before_last cs) [
  | some dir ↦ some (c ∷ dir)
  | none ↦ if c == backslash then some [] else none
]

unfoldable pub get_parent_dir : List ℕ → List ℕ
unfolding before_last
get_parent_dir path = elim (before_last path) [ some dir ↦ dir | none ↦ path ]

-- The text that fits into an array of `MAX_PATH` characters, with its end.
abbrev cut : List ℕ → List ℕ
cut text = take (max_path - 1) text

-- `exe` is what `GetModuleFileName` gives, `exists` whether `GetFileAttributes` finds a folder, `created` whether `CreateDirectory`
-- succeeds.
unfoldable pub syslog_directory :
    (List ℕ → Bool) → (List ℕ → Bool) → List ℕ → List ℕ → Outcome (List ℕ)
unfolding get_parent_dir
syslog_directory exists created exe path =
    let folder = cut (get_parent_dir (get_parent_dir (cut exe)) ++ (backslash ∷ path)) in
    if exists folder then ok folder else if created folder then ok folder else err debug_break

abbrev pub has_backslash : List ℕ → Bool
has_backslash [] = false
has_backslash (c ∷ cs) = (c == backslash) || has_backslash cs

before_last-none : (name : List ℕ) → has_backslash name ≡ false → before_last name ≡ none
unfolding before_last
before_last-none [] plain = refl
before_last-none (c ∷ cs) plain =
    let later : has_backslash cs ≡ false = ground arith in
    let here : (c == backslash) ≡ false = ground arith in rw (before_last-none cs later, here) refl

before_last-append :
    (dir name : List ℕ)
    → has_backslash name ≡ false
    → before_last (dir ++ (backslash ∷ name)) ≡ some dir
unfolding before_last
before_last-append [] name plain = rw (before_last-none name plain) refl
before_last-append (c ∷ dir) name plain = rw (before_last-append dir name plain) refl

get_parent_dir-append :
    (dir name : List ℕ)
    → has_backslash name ≡ false
    → get_parent_dir (dir ++ (backslash ∷ name)) ≡ dir
unfolding get_parent_dir
get_parent_dir-append dir name plain = rw (before_last-append dir name plain, get_parent_dir) refl

take_all : (n : ℕ) (xs : List ℕ) → length xs ≤ n → take n xs ≡ xs
take_all zero [] h = refl
take_all zero (x ∷ xs) h = absurd (omega arith)
take_all (suc n) [] h = refl
take_all (suc n) (x ∷ xs) h = ap (λ ys. x ∷ ys) (take_all n xs (omega arith))

-- Where the program is the file `name` in the folder `sub` of `dir`, and the paths are shorter than `MAX_PATH`, the folder of the log
-- files is that with the given name in `dir`: `SYSLOG_DIRECTORY` finds it or makes it, and breaks into the debugger
-- exactly where it does neither.
pub syslog_directory_lem :
    (exists created : List ℕ → Bool) (dir sub name path : List ℕ)
    → has_backslash sub ≡ false
    → has_backslash name ≡ false
    → length dir + length sub + length name + 2 < max_path
    → length dir + length path + 1 < max_path
    → syslog_directory exists created (dir ++ (backslash ∷ (sub ++ (backslash ∷ name)))) path ≡ (
        if exists (dir ++ (backslash ∷ path)) || created (dir ++ (backslash ∷ path))
        then ok (dir ++ (backslash ∷ path))
        else err debug_break)
unfolding syslog_directory
syslog_directory_lem exists created dir sub name path plain_sub plain_name short_exe short_folder =
    let folder : List ℕ = dir ++ (backslash ∷ path) in
    let exe : List ℕ = (dir ++ (backslash ∷ sub)) ++ (backslash ∷ name) in
    let parts : dir ++ (backslash ∷ (sub ++ (backslash ∷ name))) ≡ exe =
      sym (append_assoc dir (backslash ∷ sub) (backslash ∷ name)) in
    let whole_exe : take (max_path - 1) exe ≡ exe = take_all (max_path - 1) exe (
      omega (
        arith,
        length-append (dir ++ (backslash ∷ sub)) (backslash ∷ name),
        length-append dir (backslash ∷ sub),
      )) in
    let whole_folder : take (max_path - 1) folder ≡ folder =
      take_all (max_path - 1) folder (omega (arith, length-append dir (backslash ∷ path))) in
    rw
      (
        parts,
        whole_exe,
        get_parent_dir-append (dir ++ (backslash ∷ sub)) name plain_name,
        get_parent_dir-append dir sub plain_sub,
        whole_folder,
      )
      (elim (Bool-cases (exists folder)) [
        | inl there ↦ rw there refl
        | inr missing ↦ elim (Bool-cases (created folder)) [
          | inl made ↦ rw (missing, made) refl
          | inr failed ↦ rw (missing, failed) refl
        ]
      ])
