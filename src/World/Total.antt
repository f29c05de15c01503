-- ===== src/World/Total.antt =====
-- Actions that never panic, and leave the sessions and their filters alone.
use geomqtt.Base.{
  List, [], ◌∷◌, Option, none, some, Bool, true, false, if◌then◌else◌, ◌≡◌, refl, subst,
}
use geomqtt.Broker.Defs.{Broker}
use geomqtt.World.{Env, World, Action, M, ◌>>=◌, for_each}

abbrev pub IsSome : {A : Type 0} → Option A → Type 0
IsSome none = ⊥
IsSome (some a) = Unit

pub IsSome-value : {A : Type 0} (o : Option A) → IsSome o → (a : A) × (o ≡ some a)
IsSome-value none h = elim h [ ]
IsSome-value (some a) h = (a, refl)

pub IsSome-elim :
    {A B W : Type 0} (o : Option (A × W)) (f : A → W → Option B)
    → IsSome o
    → ((a : A) (w : W) → IsSome (f a w))
    → IsSome (elim o [ none ↦ none | some (a, w) ↦ f a w ])
IsSome-elim none f h k = elim h [ ]
IsSome-elim (some (a, w)) f h k = k a w

pub for_each-IsSome :
    {A W : Type 0} (xs : List A) (body : A → Action W (Unit {0})) (w : W)
    → ((x : A) (v : W) → IsSome (body x v))
    → IsSome (for_each xs body w)
unfolding for_each
for_each-IsSome [] body w h = tt
for_each-IsSome (x ∷ xs) body w h =
    IsSome-elim (body x w) (λ _. for_each xs body) (h x w) (λ _ v. for_each-IsSome xs body v h)

module _ {env : Env} where
  -- There is a value, and the broker is `b`.
  abbrev pub Gives : {A : Type 0} → Broker → Option (A × World env) → Type 0
  Gives b none = ⊥
  Gives b (some (a, w)) = w.broker ≡ b

  pub Gives-value :
      {A : Type 0} (b : Broker) (o : Option (A × World env))
      → Gives b o
      → (a : A × World env) × (o ≡ some a)
  Gives-value b none h = elim h [ ]
  Gives-value b (some a) h = (a, refl)

  pub Gives-IsSome : {A : Type 0} (b : Broker) (o : Option (A × World env)) → Gives b o → IsSome o
  Gives-IsSome b none h = h
  Gives-IsSome b (some a) h = tt

  abbrev pub IsTotal : {A : Type 0} → M env A → Type 0
  IsTotal m = (w : World env) → Gives w.broker (m w)

  pub Gives-elim :
      {A B : Type 0} (b : Broker) (o : Option (A × World env))
      (f : A → World env → Option (B × World env))
      → Gives b o
      → ((a : A) (w : World env) → Gives w.broker (f a w))
      → Gives b (elim o [ none ↦ none | some (a, w) ↦ f a w ])
  Gives-elim b none f h k = elim h [ ]
  Gives-elim b (some (a, w)) f h k = subst (λ c. Gives c (f a w)) h (k a w)

  pub IsTotal->>= :
      {A B : Type 0} (m : M env A) (f : A → M env B)
      → IsTotal m
      → ((a : A) → IsTotal (f a))
      → IsTotal (m >>= f)
  IsTotal->>= m f hm hf w = Gives-elim w.broker (m w) f (hm w) hf

  pub IsTotal-for_each :
      {A : Type 0} (xs : List A) (body : A → M env (Unit {0}))
      → ((x : A) → IsTotal (body x))
      → IsTotal (for_each xs body)
  unfolding for_each
  IsTotal-for_each [] body h w = refl
  IsTotal-for_each (x ∷ xs) body h w =
      Gives-elim w.broker (body x w) (λ _. for_each xs body) (h x w)
        (λ _. IsTotal-for_each xs body h)

  pub IsTotal-if :
      {A : Type 0} (b : Bool) (m k : M env A) → IsTotal m → IsTotal k → IsTotal (if b then m else k)
  IsTotal-if true m k hm hk = hm
  IsTotal-if false m k hm hk = hk

  pub IsTotal-option :
      {A X : Type 0} (o : Option X) (m : M env A) (f : X → M env A)
      → IsTotal m
      → ((x : X) → IsTotal (f x))
      → IsTotal (elim o [ none ↦ m | some x ↦ f x ])
  IsTotal-option none m f hm hf = hm
  IsTotal-option (some x) m f hm hf = hf x

  pub IsTotal-some :
      {A X : Type 0} (o : Option X) (m : M env A) (f : X → M env A)
      → IsSome o
      → ((x : X) → IsTotal (f x))
      → IsTotal (elim o [ none ↦ m | some x ↦ f x ])
  IsTotal-some none m f h hf = elim h [ ]
  IsTotal-some (some x) m f h hf = hf x
