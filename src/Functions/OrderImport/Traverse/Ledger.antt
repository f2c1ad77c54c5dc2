-- ===== src/Functions/OrderImport/Traverse/Ledger.antt =====
-- The relation between two states whose ledger is the same.
use dp_integrator.Base.{◌≡◌, refl, ◌∙◌, Result, ok, throws, M, resume}
use dp_integrator.Functions.OrderImport.World.{World, finally}
use dp_integrator.Functions.OrderImport.Traverse.{Calm}

module _ {E : Type 0} where
  abbrev pub Same : World E → World E → Type 0
  Same u v = v.xref ≡ u.xref

  pub Same-calm : Calm Same
  Same-calm = record {
    stays = λ w. refl;
    follows = λ u v w h k. k ∙ h;
    moves = λ w e. refl;
    assigns = λ w l. refl;
    emits = λ w es. refl;
    errs = λ w s. refl;
    logs = λ w s. refl;
  }

  pub finally-Same :
      {A : Type 0} (w : World E) (r : Result A × World E) (m : M (World E) (Unit {0}))
      → Same w r.1
      → ((v : World E) → Same v (m v).1)
      → Same w (finally r m).1
  unfolding finally
  finally-Same w (r, v) m h k = go (m v) (k v)
    where
      go : (s : Result Unit × World E) → Same v s.1 → Same w (resume s (λ _ u. (r, u))).1
      go (ok tt, u) e = e ∙ h
      go (throws x, u) e = e ∙ h
