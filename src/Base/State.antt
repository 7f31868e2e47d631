-- ===== src/Base/State.antt =====
-- Steps that change a state or fail: the setting of the operations on blocks behind pointers.
use klsm.Base.{Option, none, some}

abbrev pub Step : Type 0 → Type 0 → Type 0
Step S A = S → Option (A × S)

abbrev pub pure : {S A : Type 0} → A → Step S A
pure result now = some (result, now)

abbrev pub lift : {S A : Type 0} → Option A → Step S A
lift o now = elim o [ some result ↦ some (result, now) | none ↦ none ]

infixl 5 ◌>>=◌ ◌>>◌
abbrev pub ◌>>=◌ : {S A B : Type 0} → Step S A → (A → Step S B) → Step S B
◌>>=◌ first then now = elim (first now) [ some (result, later) ↦ then result later | none ↦ none ]

abbrev pub ◌>>◌ : {S A B : Type 0} → Step S A → Step S B → Step S B
first >> second = first >>= λ _. second
