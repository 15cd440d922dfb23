-- ===== src/Base/Returns.antt =====
-- What a kernel routine comes to: it returns, or it calls `panic` and never returns.
use mathlib.Core.Path.{◌≡◌, refl}

pub data Outcome {ℓ} (A : Type ℓ) : Type ℓ where
  ret : A → Outcome A
  panic : Outcome A

infixl 5 ◌>>=◌
abbrev pub ◌>>=◌ {ℓ κ} : {A : Type ℓ} {B : Type κ} → Outcome A → (A → Outcome B) → Outcome B
ret a >>= f = f a
panic >>= f = panic

-- Where a sequence of two steps returned, so did the first, and the second from its result.
pub >>=-eq-ret {ℓ κ} :
    {Mid : Type ℓ} {End : Type κ} (first : Outcome Mid) (second : Mid → Outcome End) {end : End}
    → (first >>= second) ≡ ret end
    → (mid : Mid) × (first ≡ ret mid) × (second mid ≡ ret end)
>>=-eq-ret (ret mid) second returned = (mid, refl, returned)
>>=-eq-ret panic second returned = absurd (cc)

pub ret_injective {ℓ} : {A : Type ℓ} {a b : A} → ret a ≡ ret b → a ≡ b
ret_injective h = cc (h)

-- A property of every result of the second step, where the sequence returned.
pub >>=-holds {ℓ κ μ} :
    {Mid : Type ℓ} {End : Type κ} (P : End → Type μ) (first : Outcome Mid)
    (second : Mid → Outcome End) {end : End}
    → (first >>= second) ≡ ret end
    → ((mid : Mid) → first ≡ ret mid → second mid ≡ ret end → P end)
    → P end
>>=-holds P first second h each =
    let (mid, one, two) = >>=-eq-ret first second h in each mid one two
