-- ===== src/Prelude/Binds.antt =====
-- Inversion of a stateful sequence, by how it ended.
use mathlib.Core.Path.{◌≡◌, refl, ap}
use externalip_manager.Prelude.Outcome.{Outcome, done, fail, panic, Exec, resume, ◌>>=◌}

module _ {S E A B : Type 0} where
  pub resume-done :
      (r : Outcome E A) (f : A → Exec S E B) (s : S) {b : B} {t : S}
      → resume r f s ≡ (done b, t)
      → (a : A) × (r ≡ done a) × (f a s ≡ (done b, t))
  resume-done (done a) f s h = (a, refl, h)
  resume-done (fail e) f s h = cc (ap (λ (p : Outcome E B × S). p.0) h)
  resume-done (panic p) f s h = cc (ap (λ (p : Outcome E B × S). p.0) h)

  pub >>=-done :
      (m : Exec S E A) (f : A → Exec S E B) (s : S) {b : B} {t : S}
      → (m >>= f) s ≡ (done b, t)
      → (a : A) × (u : S) × (m s ≡ (done a, u)) × (f a u ≡ (done b, t))
  unfolding ◌>>=◌
  >>=-done m f s h =
      let (a, e, g) = resume-done (m s).0 f (m s).1 h in (a, (m s).1, λ i. (e i, (m s).1), g)
