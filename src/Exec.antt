-- ===== src/Exec.antt =====
-- Code that changes the world and may return an error: the world comes back beside the error too,
-- since what was written before an early return stays written.
use quickbite_analytics_serv.Base.{◌≡◌, refl}
use quickbite_analytics_serv.Errors.{Err, Result, ok, err}

abbrev pub Exec : Type 0 → Type 0 → Type 0
Exec W A = W → Result A × W

module _ {W A B : Type 0} where
  -- the world that a call leaves behind goes to what follows, unless the call failed
  abbrev pub continue : Result A → (A → Exec W B) → Exec W B
  continue (ok a) f w = f a w
  continue (err e) f w = (err e, w)

  infixl 5 ◌>>=◌ ◌>>◌
  abbrev pub ◌>>=◌ : Exec W A → (A → Exec W B) → Exec W B
  ◌>>=◌ m f w = let (r, w') = m w in continue r f w'

  abbrev pub ◌>>◌ : Exec W A → Exec W B → Exec W B
  m >> n = m >>= λ _. n

module _ {W A : Type 0} where
  abbrev pub pure : A → Exec W A
  pure a w = (ok a, w)

  abbrev pub fail : Err → Exec W A
  fail e w = (err e, w)

  abbrev pub lift : Result A → Exec W A
  lift r w = (r, w)

-- A chain of two calls returns only if both did, and then runs the second after the first.
pub continue-eq-ok :
    {W A B : Type 0} (r : Result A) (f : A → Exec W B) (w : W) {b : B}
    → (continue r f w).0 ≡ ok b
    → (a : A) × (continue r f w ≡ f a w) × ((f a w).0 ≡ ok b) × (r ≡ ok a)
continue-eq-ok (ok a) f w h = (a, refl, h, refl)
continue-eq-ok (err e) f w h = cc

-- A call that succeeds hands its world on.
pub >>-eq-ok :
    {W A B : Type 0} (m : Exec W A) (n : Exec W B) (w : W) {a : A} {w' : W}
    → m w ≡ (ok a, w')
    → (m >> n) w ≡ n w'
>>-eq-ok m n w h = rw h refl

-- What follows a chain follows its last call.
pub >>_assoc :
    {W A B D : Type 0} (m : Exec W A) (n : Exec W B) (k : Exec W D) (w : W)
    → ((m >> n) >> k) w ≡ (m >> (n >> k)) w
>>_assoc {W = W} {A = A} m n k w = continue_assoc (m w).0 (m w).1
  where
    continue_assoc :
        (r : Result A) (v : W) → ((λ u. continue r (λ _. n) u) >> k) v ≡ continue r (λ _. n >> k) v
    continue_assoc (ok a) v = refl
    continue_assoc (err e) v = refl

-- Only what follows a call is exchanged.
pub >>-same :
    {W A B : Type 0} (m : Exec W A) (n k : Exec W B) (w : W)
    → ((v : W) → n v ≡ k v)
    → (m >> n) w ≡ (m >> k) w
>>-same {W = W} {A = A} m n k w same = continue-same (m w).0 (m w).1
  where
    continue-same : (r : Result A) (v : W) → continue r (λ _. n) v ≡ continue r (λ _. k) v
    continue-same (ok a) v = same v
    continue-same (err e) v = refl
