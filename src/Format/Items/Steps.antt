-- ===== src/Format/Items/Steps.antt =====
-- Runs of the loop of `vsprintf`, step by step.
use razos.Base.{ℕ, zero, suc, ◌≡◌, ◌≢◌, refl, ap, ◌∙◌, List, [], ◌∷◌, Option, none, some}
use razos.Format.Printer.{Printer, step, print_loop, Run, done, faults, out_of_fuel}
use razos.Format.Ends.{print_loop_more}

-- From `p` the loop ends in `q`.
pub data Ends (q : Printer) : Printer → Type 0 where
  stop : q.fmt ≡ [] → Ends q q
  more :
      {p : Printer} (r : Printer) (c : ℕ) (rest : List ℕ)
      → p.fmt ≡ c ∷ rest
      → step p ≡ some r
      → Ends q r
      → Ends q p

abbrev resume : ℕ → Option Printer → Run
resume fuel none = faults
resume fuel (some q) = print_loop fuel q

print_loop_end : (fuel : ℕ) (p : Printer) → p.fmt ≡ [] → print_loop fuel p ≡ done p
unfolding print_loop
print_loop_end zero p e = rw e refl
print_loop_end (suc fuel) p e = rw e refl

round :
    (fuel : ℕ) (p r : Printer) (c : ℕ) (rest : List ℕ)
    → p.fmt ≡ c ∷ rest
    → step p ≡ some r
    → print_loop (suc fuel) p ≡ print_loop fuel r
round fuel p r c rest e s = print_loop_more fuel p c rest e ∙ ap (resume fuel) s

-- With enough fuel the loop does the same.
pub Ends-runs :
    {q p : Printer}
    → Ends q p
    → (fuel : ℕ) → print_loop fuel p ≢ out_of_fuel
    → print_loop fuel p ≡ done q
unfolding print_loop
Ends-runs (stop e) fuel h = print_loop_end fuel _ e
Ends-runs (more r c rest e s run) zero h = absurd (h (rw e refl))
Ends-runs (more {p} r c rest e s run) (suc fuel) h =
    let same = round fuel p r c rest e s in same ∙ Ends-runs run fuel (λ out. h (same ∙ out))
