-- ===== src/Prelude/Digits.antt =====
-- Well-founded recursion on the native numbers, and decimal printing (`std::to_string`).
use Prim.Native.Nat.{ℕ, zero, suc, ◌+◌, ◌/◌, ◌%◌, ◌<◌}
use mathlib.Core.Path.{◌≡◌}
use mathlib.Core.Logic.{dite}
use mathlib.Core.List.{List, [], ◌∷◌, ◌++◌}
use mathlib.Core.WellFounded.{Acc, WellFounded}
use native.Mathlib.Omega.{arith}
use native.Mathlib.Decide.{dec_lt}
use barbacoa_server_lib.Prelude.Tests.{ltb, if◌then◌else◌}

Acc-below : (k n : ℕ) → n < k → Acc ◌<◌ n
Acc-below zero n h = elim h [ ]
Acc-below (suc k) n h = Acc.intro n (λ m hm. Acc-below k m (omega arith))

unfoldable pub lt_wf : WellFounded ◌<◌
unfolding Acc-below
lt_wf = record { apply = λ n. Acc-below (suc n) n (omega arith) }

to_string_acc : (n : ℕ) → Acc ◌<◌ n → List ℕ
to_string_acc n (Acc.intro _ smaller) =
    dite (dec_lt 9 n)
      (λ h. to_string_acc (n / 10) (smaller (n / 10) (omega arith)) ++ (48 + n % 10) ∷ [])
      (λ _. (48 + n) ∷ [])

unfoldable pub to_string : ℕ → List ℕ
unfolding to_string_acc lt_wf dec_lt
to_string n = to_string_acc n (lt_wf.apply n)

to_string_acc_irrelevant : (n : ℕ) (v w : Acc ◌<◌ n) → to_string_acc n v ≡ to_string_acc n w
unfolding to_string_acc
to_string_acc_irrelevant n (Acc.intro _ f) (Acc.intro _ g) =
    grind
      (arith, λ (h : n / 10 < n). to_string_acc_irrelevant (n / 10) (f (n / 10) h) (g (n / 10) h))

-- `to_string` by its digits.
pub to_string_lem :
    (n : ℕ)
    → to_string n ≡ (if ltb 9 n then to_string (n / 10) ++ (48 + n % 10) ∷ [] else (48 + n) ∷ [])
unfolding to_string to_string_acc
to_string_lem n = to_string_step n (lt_wf.apply n)
  where
    to_string_step :
        (n : ℕ) (w : Acc ◌<◌ n)
        → to_string_acc n w
          ≡ (if ltb 9 n then to_string (n / 10) ++ (48 + n % 10) ∷ [] else (48 + n) ∷ [])
    to_string_step n (Acc.intro _ f) = grind (
      arith,
      λ (h : n / 10 < n). to_string_acc_irrelevant (n / 10) (f (n / 10) h) (lt_wf.apply (n / 10)),
    )
