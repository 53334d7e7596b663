-- ===== src/Runtime/PidFile.antt =====
-- platform/pidfile/pidfile.go.
use llamarig.Common.{
  ℕ, ◌+◌, ◌-◌, ◌*◌, ◌^◌, Bool, true, false, ◌&&◌, ◌||◌, Option, none, some, [], ◌∷◌, ◌++◌, ltb, leb,
  ◌==◌, if◌then◌else◌, not,
}
use llamarig.Common.Text.{Text, ◌=ₜ◌, decimal, trim_space, trim_right}
use llamarig.Common.Results.{Result, ok, err}
use llamarig.Common.Int.{ℤ, pos, negsuc}
use llamarig.Runtime.Machine.{Os, M, Target, Signal, pure, ◌>>=◌, call}

-- The digits of a number, if there are only digits.
unfoldable pub digits_onto : ℕ → Text → Option ℕ
digits_onto n [] = some n
digits_onto n (c ∷ s) =
    let rest = digits_onto (n * 10 + (c - b'0')) s in
    if leb b'0' c && leb c b'9' then rest else none

abbrev pub unsigned : Text → Option ℕ
unsigned [] = none
unsigned (c ∷ s) = digits_onto 0 (c ∷ s)

abbrev pub positive : Option ℕ → Option ℤ
positive none = none
positive (some n) = if ltb n (2 ^ 63) then some (pos n) else none

abbrev pub negative : Option ℕ → Option ℤ
negative none = none
negative (some n) =
    if n == 0 then some (pos 0) else if leb n (2 ^ 63) then some (negsuc (n - 1)) else none

-- `strconv.Atoi`.
unfoldable pub atoi : Text → Option ℤ
unfolding digits_onto
atoi [] = none
atoi (c ∷ s) =
    if c == b'-'
    then negative (unsigned s)
    else if c == b'+'
    then positive (unsigned s)
    else positive (unsigned (c ∷ s))

-- What stands behind the last slash; `filepath.Base` leaves slashes at the end out.
unfoldable pub base_onto : Text → Text → Text
base_onto base [] = base
base_onto base (c ∷ s) = if c == b'/' then base_onto s s else base_onto base s

abbrev pub base_of : Text → Text → Text
base_of [] [] = b'.' ∷ []
base_of (c ∷ s) [] = b'/' ∷ []
base_of s (d ∷ t) = base_onto (d ∷ t) (d ∷ t)

abbrev pub base : Text → Text
base s = base_of s (trim_right (λ c. c == b'/') s)

module _ {W : Type 0} (os : Os W) where
  -- `Alive`, of a pid above zero.
  abbrev pub alive_pid : ℕ → M W Bool
  alive_pid pid = do
    e ← call (os.signal Signal.probe (Target.process pid))
    elim e [ none ↦ pure true | some _ ↦ pure false ]

  abbrev pub alive : ℕ → M W Bool
  alive pid = if pid == 0 then pure false else alive_pid pid

  -- `File.Write`.
  unfoldable pub write : ℕ → M W (Option Text)
  unfolding decimal
  write pid = call (os.write_file (decimal pid ++ 10 ∷ []))

  abbrev pub forget : M W (Result Text (Option ℕ))
  forget = do e ← call os.remove_file; pure (ok none)

  abbrev pub running_if : ℕ → Bool → M W (Result Text (Option ℕ))
  running_if pid true = pure (ok (some pid))
  running_if pid false = forget

  abbrev pub running_number : Option ℤ → M W (Result Text (Option ℕ))
  running_number none = forget
  running_number (some (negsuc _)) = forget
  running_number (some (pos pid)) = do there ← alive pid; running_if pid there

  abbrev pub running_text : Result Text (Option Text) → M W (Result Text (Option ℕ))
  running_text (err e) = pure (err e)
  running_text (ok none) = pure (ok none)
  running_text (ok (some text)) = running_number (atoi (trim_space text))

  -- `File.Running`.
  unfoldable pub running : M W (Result Text (Option ℕ))
  unfolding atoi trim_space
  running = do text ← call os.read_file; running_text text

  abbrev pub is_other : ℕ → Option ℤ → Bool
  is_other expected none = false
  is_other expected (some (negsuc _)) = true
  is_other expected (some (pos pid)) = not (pid == expected)

  abbrev pub remove_text : ℕ → Result Text (Option Text) → M W (Option Text)
  remove_text expected (err e) = pure (some e)
  remove_text expected (ok none) = pure none
  remove_text expected (ok (some text)) =
      if is_other expected (atoi (trim_space text)) then pure none else call os.remove_file

  -- `File.Remove`; `os.Remove` of a file that is not there is no error.
  unfoldable pub remove : ℕ → M W (Option Text)
  unfolding atoi trim_space
  remove expected =
      if expected == 0
      then call os.remove_file
      else (do text ← call os.read_file; remove_text expected text)

  abbrev pub matches : Text → Text → Result Text Text → Bool
  matches expected resolved (err _) = false
  matches expected resolved (ok actual) =
      actual =ₜ expected || actual =ₜ resolved || base actual =ₜ base expected

  -- `ExecutableMatches`.
  unfoldable pub executable_matches : ℕ → Text → M W Bool
  unfolding base_onto ◌=ₜ◌
  executable_matches pid expected = do
    actual ← call (os.executable pid)
    resolved ← call (os.look_path expected)
    pure (matches expected resolved actual)
