-- ===== src/TtlCache/Table.antt =====
-- A cache that meets the laws of the interface: a table with the newest entry first, which drops
-- the entry written longest ago when it is full. It is the input of the examples.
use oidc_proxy.Base.{
  ℕ, zero, suc, ◌+◌, ◌-◌, ◌≤◌, ◌<◌, ◌≡◌, ◌≢◌, ◌⊎◌, inl, inr, refl, Bool, Option, none, some, List,
  [], ◌∷◌, Text, arith, ltb, if◌then◌else◌, length, take, text_eq, text_eq_refl, text_eq_iff,
}
use oidc_proxy.TtlCache.{Item, TtlCache, TtlCacheLaws}

pub record Table (V : Type 0) : Type 0 where
  pub cap : ℕ
  pub rows : List (Text × Item V)

unfoldable pub lookup : {V : Type 0} → Text → List (Text × Item V) → Option (Item V)
lookup k [] = none
lookup k ((j, i) ∷ rows) = if text_eq j k then some i else lookup k rows

unfoldable pub remove : {V : Type 0} → Text → List (Text × Item V) → List (Text × Item V)
remove k [] = []
remove k ((j, i) ∷ rows) = let rest = remove k rows in if text_eq j k then rest else (j, i) ∷ rest

abbrev pub table_cache : TtlCache
table_cache = record {
  Store = Table;
  create = λ V n. record { cap = n; rows = [] };
  get = λ V now k s. (s, lookup k s.rows);
  set = λ V now k v ttl s. record s {
    rows = (k, record { value = v; expires_at = now + ttl }) ∷ take (s.cap - 1) (remove k s.rows);
  };
  is_expired = λ now expiry. ltb expiry now;
}

module _ {V : Type 0} where
  length-remove-le : (k : Text) (rows : List (Text × Item V)) → length (remove k rows) ≤ length rows
  unfolding remove
  length-remove-le k [] = omega arith
  length-remove-le k ((j, i) ∷ rows) = ground (arith, length-remove-le k rows)

  length-take-le : (n : ℕ) (rows : List (Text × Item V)) → length (take n rows) ≤ length rows
  length-take-le zero rows = omega arith
  length-take-le (suc n) [] = omega arith
  length-take-le (suc n) (r ∷ rows) = omega (arith, length-take-le n rows)

  lookup-remove_ne :
      (k j : Text) (rows : List (Text × Item V)) → k ≢ j → lookup j (remove k rows) ≡ lookup j rows
  unfolding lookup remove
  lookup-remove_ne k j [] h = refl
  lookup-remove_ne k j ((l, i) ∷ rows) h =
      ground (arith, lookup-remove_ne k j rows h, text_eq_iff l k, text_eq_iff l j)

  lookup-take :
      (j : Text) (n : ℕ) (rows : List (Text × Item V))
      → (lookup j (take n rows) ≡ lookup j rows) ⊎ (lookup j (take n rows) ≡ none)
  unfolding lookup
  lookup-take j zero rows = inr refl
  lookup-take j (suc n) [] = inl refl
  lookup-take j (suc n) ((l, i) ∷ rows) = ground (arith, lookup-take j n rows)

  take_all : (n : ℕ) (rows : List (Text × Item V)) → length rows ≤ n → take n rows ≡ rows
  take_all zero [] h = refl
  take_all zero (r ∷ rows) h = absurd (omega arith)
  take_all (suc n) [] h = refl
  take_all (suc n) (r ∷ rows) h = ground (arith, take_all n rows)

module _ {V : Type 0} (now : ℕ) (k j : Text) (v : V) (ttl : ℕ) (s : Table V) where
  pub set_self :
      lookup k (table_cache.set V now k v ttl s).rows
      ≡ some (record { value = v; expires_at = now + ttl })
  unfolding lookup
  set_self = ground (arith, text_eq_refl k)

  pub set_ne :
      k ≢ j
      → (lookup j (table_cache.set V now k v ttl s).rows ≡ lookup j s.rows)
        ⊎ (lookup j (table_cache.set V now k v ttl s).rows ≡ none)
  unfolding lookup
  set_ne h = ground (
    arith,
    text_eq_iff k j,
    lookup-take j (s.cap - 1) (remove k s.rows),
    lookup-remove_ne k j s.rows h,
  )

  pub set_room :
      k ≢ j
      → length s.rows < s.cap
      → lookup j (table_cache.set V now k v ttl s).rows ≡ lookup j s.rows
  unfolding lookup
  set_room h room = ground (
    arith,
    text_eq_iff k j,
    take_all (s.cap - 1) (remove k s.rows),
    length-remove-le k s.rows,
    lookup-remove_ne k j s.rows h,
  )

  pub set_size : length (table_cache.set V now k v ttl s).rows ≤ suc (length s.rows)
  set_size = omega (arith, length-take-le (s.cap - 1) (remove k s.rows), length-remove-le k s.rows)

pub fresh_lem : (now expiry : ℕ) → now < expiry → ltb expiry now ≡ Bool.false
fresh_lem now expiry h = ground arith

pub stale_lem : (now expiry : ℕ) → expiry < now → ltb expiry now ≡ Bool.true
stale_lem now expiry h = ground arith

unfoldable pub table_laws : (V : Type 0) → TtlCacheLaws table_cache V
unfolding lookup
table_laws V = record {
  held = λ s k. lookup k s.rows;
  size = λ s. length s.rows;
  capacity = λ s. s.cap;
  fresh = λ now expiry h. fresh_lem now expiry h;
  stale = λ now expiry h. stale_lem now expiry h;
  held-create = λ n k. refl;
  size-create = λ n. refl;
  capacity-create = λ n. refl;
  get_sound = λ now k s i h. h;
  get-hit = λ now k s i h e. h;
  held-get = λ now k j s. refl;
  size-get = λ now k s. refl;
  capacity-get = λ now k s. refl;
  held-set_self = λ now k v ttl s h. set_self now k k v ttl s;
  held-set_ne = λ now k j v ttl s h. set_ne now k j v ttl s h;
  held-set_room = λ now k j v ttl s h room. set_room now k j v ttl s h room;
  size-set = λ now k v ttl s. set_size now k k v ttl s;
  capacity-set = λ now k v ttl s. refl;
}
