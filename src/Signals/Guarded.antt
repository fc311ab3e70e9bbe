-- ===== src/Signals/Guarded.antt =====
-- What the response cache may hold: answers that are guarded by the threshold of their tenant.
use mathlib.Core.Path.{}
use sync_ai_final.Base.{
  leb, is_some, nat_eq, list_eqb, list_eq, option_eq, pair_eqb_iff, pair_eq, Text, Dict, get,
  insert, erase, ℕ, ◌≡◌, refl, Bool, true, false, not, ◌&&◌, none, some, List, [], ◌∷◌, arith,
}
use sync_ai_final.Models.{Time}
use sync_ai_final.Signals.{Settings, DocumentSignalResponse, invalidate}
use sync_ai_final.Signals.Documents.{invalidate_all}

module _ (Score : Type 0) where
  -- Numbers are shown only with a number of actors that reaches the threshold.
  abbrev pub is_guarded : ℕ → DocumentSignalResponse Score → Bool
  is_guarded threshold r = elim r.distinct_viewers [
    | none ↦
        not (is_some r.popularity_score)
        && not (is_some r.total_views)
        && not (is_some r.last_viewed)
    | some n ↦ leb threshold n
  ]

  abbrev pub Cache : Type 0
  Cache = Dict (Text × Text) (Time × DocumentSignalResponse Score)

  -- Each cached answer is guarded by the threshold of its tenant.
  unfoldable pub guarded : (Text → ℕ) → Cache → Bool
  guarded threshold [] = true
  guarded threshold ((k, v) ∷ cache) = is_guarded (threshold k.0) v.1 && guarded threshold cache

  pub guarded_same :
      (f g : Text → ℕ) (cache : Cache)
      → ((t : Text) → f t ≡ g t)
      → guarded f cache ≡ guarded g cache
  unfolding guarded
  guarded_same f g [] h = refl
  guarded_same f g ((k, v) ∷ cache) h = ground (arith, h k.0, guarded_same f g cache h)

  -- A lower threshold guards no less.
  pub guarded_lower :
      (f g : Text → ℕ) (cache : Cache)
      → ((t : Text) → leb (g t) (f t) ≡ true)
      → guarded f cache ≡ true
      → guarded g cache ≡ true
  unfolding guarded
  guarded_lower f g [] h q = refl
  guarded_lower f g ((k, v) ∷ cache) h q = ground (arith, h k.0, guarded_lower f g cache h)

  pub guarded-insert :
      (f : Text → ℕ) (k : Text × Text) (v : Time × DocumentSignalResponse Score) (cache : Cache)
      → guarded f cache ≡ true
      → is_guarded (f k.0) v.1 ≡ true
      → guarded f (insert k v cache) ≡ true
  unfolding guarded insert
  guarded-insert f k v [] h q = ground (arith, q)
  guarded-insert f k v ((j, w) ∷ cache) h q =
      ground (arith, pair_eqb_iff j k, guarded-insert f k v cache)

  pub guarded-erase :
      (f : Text → ℕ) (k : Text × Text) (cache : Cache)
      → guarded f cache ≡ true
      → guarded f (erase k cache) ≡ true
  unfolding guarded erase
  guarded-erase f k [] h = refl
  guarded-erase f k ((j, w) ∷ cache) h = ground (arith, guarded-erase f k cache)

  pub guarded-get :
      (f : Text → ℕ) (k : Text × Text) (v : Time × DocumentSignalResponse Score) (cache : Cache)
      → guarded f cache ≡ true
      → get k cache ≡ some v
      → is_guarded (f k.0) v.1 ≡ true
  unfolding guarded get
  guarded-get f k v [] h q = cc
  guarded-get f k v ((j, w) ∷ cache) h q = ground (arith, pair_eqb_iff j k, guarded-get f k v cache)

  module _ (settings : Settings) where
    -- The entries that stay are those of other tenants, whose thresholds are as they were.
    pub guarded-invalidate :
        (f g : Text → ℕ) (tenant : Text) (cache : Cache)
        → ((t : Text) → list_eqb t tenant ≡ false → f t ≡ g t)
        → guarded f cache ≡ true
        → guarded g (invalidate Score settings tenant cache) ≡ true
    unfolding guarded invalidate
    guarded-invalidate f g tenant [] h q = refl
    guarded-invalidate f g tenant ((k, v) ∷ cache) h q =
        ground (arith, h k.0, guarded-invalidate f g tenant cache h)

    pub guarded-invalidate_all :
        (f : Text → ℕ) (ts : List Text) (cache : Cache)
        → guarded f cache ≡ true
        → guarded f (invalidate_all Score settings ts cache) ≡ true
    unfolding invalidate_all
    guarded-invalidate_all f [] cache q = q
    guarded-invalidate_all f (t ∷ ts) cache q =
        guarded-invalidate_all f ts (invalidate Score settings t cache)
          (guarded-invalidate f f t cache (λ u e. refl) q)
