-- ===== src/Fluid/Compact/Take.antt =====
-- Visiting a list of positions of a store in turn, reading a value and updating at each, as the loop
-- of ScheduleCompaction does; and how such a visit of a part is one of the whole.
use rocks_db_wrapper.Base.{
  ◌≡◌, refl, sym, subst, ◌∙◌, Option, some, some-injective, List, [], ◌∷◌, ◌++◌, map, ◌>>=◌,
  >>=-some, >>=-eq-some,
}

module _ {N S P : Type 0} (look : S → P → Option N) (update : P → S → S) where
  pub take_by : S → List P → Option (List N × S)
  take_by s [] = some ([], s)
  take_by s (p ∷ ps) = do
    name ← look s p
    (names, last) ← take_by (update p s) ps
    some (name ∷ names, last)

  pub take_by-nil : (s : S) → take_by s [] ≡ some ([], s)
  unfolding take_by
  take_by-nil s = refl

  pub take_by-cons :
      (s : S) (p : P) (ps : List P) {name : N} {r : List N × S}
      → look s p ≡ some name
      → take_by (update p s) ps ≡ some r
      → take_by s (p ∷ ps) ≡ some (name ∷ r.0, r.1)
  unfolding take_by
  take_by-cons s p ps e h = >>=-some _ e (>>=-some _ h refl)

  pub take_by-eq-some :
      (s : S) (p : P) (ps : List P) {r : List N × S}
      → take_by s (p ∷ ps) ≡ some r
      → (name : N) × (rest : List N × S) × (look s p ≡ some name)
        × (take_by (update p s) ps ≡ some rest)
        × (◌≡◌ {A = List N × S} (name ∷ rest.0, rest.1) r)
  unfolding take_by
  take_by-eq-some s p ps e =
      let (name, e1, r1) = >>=-eq-some (look s p) _ e in
      let (rest, e2, r2) = >>=-eq-some (take_by (update p s) ps) _ r1 in
      (name, rest, e1, e2, some-injective _ _ r2)

  pub take_by-append :
      (s : S) (ps qs : List P) {r t : List N × S}
      → take_by s ps ≡ some r
      → take_by r.1 qs ≡ some t
      → take_by s (ps ++ qs) ≡ some (r.0 ++ t.0, t.1)
  unfolding take_by
  take_by-append s [] qs {r} {t} e h =
      subst (λ u. take_by u.1 qs ≡ some t → take_by s qs ≡ some (u.0 ++ t.0, t.1))
        (some-injective _ _ e) (λ k. k) h
  take_by-append s (p ∷ ps) qs {r} {t} e h =
      let (name, rest, looked, taken, same) = take_by-eq-some s p ps e in
      subst (λ u. take_by u.1 qs ≡ some t → take_by s (p ∷ ps ++ qs) ≡ some (u.0 ++ t.0, t.1)) same
        (λ k. take_by-cons s p (ps ++ qs) looked (take_by-append (update p s) ps qs taken k)) h

module _ {N S P S' P' : Type 0} (look : S → P → Option N) (update : P → S → S)
    (look' : S' → P' → Option N) (update' : P' → S' → S') (inj : S → S') (at : P → P')
    (looks : (s : S) (p : P) → look' (inj s) (at p) ≡ look s p)
    (updates : (s : S) (p : P) → update' (at p) (inj s) ≡ inj (update p s)) where
  -- Where the part's positions read and write through `inj`, so does a whole visit.
  pub take_by-map :
      (s : S) (ps : List P) {r : List N × S}
      → take_by look update s ps ≡ some r
      → take_by look' update' (inj s) (map at ps) ≡ some (r.0, inj r.1)
  take_by-map s [] {r} e =
      rw (← some-injective _ _ (sym (take_by-nil look update s) ∙ e))
        (take_by-nil look' update' (inj s))
  take_by-map s (p ∷ ps) {r} e =
      let (name, rest, looked, taken, same) = take_by-eq-some look update s p ps e in
      subst (λ u. take_by look' update' (inj s) (at p ∷ map at ps) ≡ some (u.0, inj u.1)) same
        (take_by-cons look' update' (inj s) (at p) (map at ps) (looks s p ∙ looked)
          (rw (updates s p) (take_by-map (update p s) ps taken)))
