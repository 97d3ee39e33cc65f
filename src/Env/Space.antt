-- ===== src/Env/Space.antt =====
-- Calls of kern/pmap.c on the page directory of an environment.
use challenge.Base.{ℕ, ◌≡◌, ◌∙◌, ap, Option, some}
use challenge.Base.Run.{Run, ok, Cmd, and_then, ◌>>=◌}
use challenge.Pmap.Pages.{Pmap}
use challenge.Env.State.{Kernel, deref, lift, in_pmap}

-- A call of pmap.c on the address space of an environment, and what follows it.
pub in_space :
    {A B : Type 0} (o : Option ℕ) (d : ℕ) (k : Kernel) (f : ℕ → Cmd Pmap A) (g : A → Cmd Kernel B)
    (a : A) (pm : Pmap)
    → o ≡ some d
    → f d k.pm ≡ ok a pm
    → (do x ← deref o; r ← lift (f x); g r) k ≡ g a (record k { pm = pm })
in_space {A = A} o d k f g a pm space run =
    ap (λ (x : Option ℕ). (do y ← deref x; r ← lift (f y); g r) k) space
    ∙ ap (λ (r : Run Pmap A). and_then (in_pmap r k) g) run
