-- ===== src/Store/Atomic.antt =====
-- Calls that leave the client's store alone, or do so where they fail.
use rn_signal_protocol_messa.Base.{◌≡◌, refl, ◌∙◌, ℕ}
use rn_signal_protocol_messa.Status.{Error, Result, ok, err}
use rn_signal_protocol_messa.Action.{Action, pure, lift, and_then, map_error, ◌>>=◌, ◌>>◌}
use rn_signal_protocol_messa.Store.{World, on_random}

module _ {S : Type 0} where
  -- The store is as before, whatever the outcome.
  pub record Still {A : Type 0} (m : Action (World S) A) : Type 0 where
    pub at : (w : World S) → (m w).1.stored ≡ w.stored

  -- The store is as before, if the outcome is an error.
  pub record IsAtomic {A : Type 0} (m : Action (World S) A) : Type 0 where
    pub at : (w : World S) (e : Error) → (m w).0 ≡ err e → (m w).1.stored ≡ w.stored

  pub Still-lift : {A : Type 0} (r : Result A) → Still (lift r)
  Still-lift r = record { at = λ w. refl }

  pub Still-on_random : {A : Type 0} (m : Action ℕ A) → Still (on_random m)
  Still-on_random m = record { at = λ w. refl }

  pub IsAtomic-Still : {A : Type 0} {m : Action (World S) A} → Still m → IsAtomic m
  IsAtomic-Still s = record { at = λ w e h. s.at w }

  bind_at :
      {A B : Type 0} (r : Result A × World S) (f : A → Action (World S) B) (s : S)
      → r.1.stored ≡ s
      → ((a : A) → IsAtomic (f a))
      → (e : Error) → (and_then r f).0 ≡ err e
      → (and_then r f).1.stored ≡ s
  bind_at (ok a, w) f s still k e h = (k a).at w e h ∙ still
  bind_at (err d, w) f s still k e h = still

  pub IsAtomic-bind :
      {A B : Type 0} {m : Action (World S) A} {f : A → Action (World S) B}
      → Still m
      → ((a : A) → IsAtomic (f a))
      → IsAtomic (m >>= f)
  unfolding ◌>>=◌
  IsAtomic-bind {m = m} {f = f} s k = record {
    at = λ w e h. bind_at (m w) f w.stored (s.at w) k e h;
  }

  last_at :
      {A B : Type 0} (r : Result A × World S) (b : B) (s : S)
      → ((e : Error) → r.0 ≡ err e → r.1.stored ≡ s)
      → (e : Error) → (and_then r (λ _. pure b)).0 ≡ err e
      → (and_then r (λ _. pure b)).1.stored ≡ s
  last_at (ok a, w) b s h e bad = cc
  last_at (err d, w) b s h e bad = h d refl

  -- A write may come last.
  pub IsAtomic-last :
      {A B : Type 0} {m : Action (World S) A} (b : B) → IsAtomic m → IsAtomic (m >> pure b)
  unfolding ◌>>=◌
  IsAtomic-last {m = m} b a = record { at = λ w e h. last_at (m w) b w.stored (a.at w) e h }

  error_at :
      {A : Type 0} (f : Error → Error) (r : Result A) (now s : S)
      → ((e : Error) → r ≡ err e → now ≡ s)
      → (e : Error) → (elim r as (λ _. Result A) [ ok a ↦ ok a | err d ↦ err (f d) ]) ≡ err e
      → now ≡ s
  error_at f (ok a) now s h e bad = cc
  error_at f (err d) now s h e bad = h d refl

  pub IsAtomic-map_error :
      {A : Type 0} {m : Action (World S) A} (f : Error → Error)
      → IsAtomic m
      → IsAtomic (map_error f m)
  IsAtomic-map_error {m = m} f a = record {
    at = λ w e h. error_at f (m w).0 (m w).1.stored w.stored (a.at w) e h;
  }

  Still-bind_at :
      {A B : Type 0} (r : Result A × World S) (f : A → Action (World S) B) (s : S)
      → r.1.stored ≡ s
      → ((a : A) → Still (f a))
      → (and_then r f).1.stored ≡ s
  Still-bind_at (ok a, w) f s still k = (k a).at w ∙ still
  Still-bind_at (err d, w) f s still k = still

  pub Still-bind :
      {A B : Type 0} {m : Action (World S) A} {f : A → Action (World S) B}
      → Still m
      → ((a : A) → Still (f a))
      → Still (m >>= f)
  unfolding ◌>>=◌
  Still-bind {m = m} {f = f} s k = record { at = λ w. Still-bind_at (m w) f w.stored (s.at w) k }

  pub Still-pure : {A : Type 0} (a : A) → Still (pure {S = World S} a)
  Still-pure a = record { at = λ w. refl }
