-- ===== src/Sync/Merge/Order.antt =====
-- web/src/sync/merge.ts.
-- The greatest timestamp wins, in whatever order the changes come.
use fincrypt.Prelude.{
  subst, str_lt_asymm, ◌≡◌, ◌⊎◌, ◌↔◌, refl, sym, ap, ◌∙◌, false, Option, none, some, List, [], ◌∷◌,
  arith, Str, str_eq, str_eq_iff, str_eq_refl, str_lt, str_lt_irrefl, str_lt_negative_trans,
  str_lt_connected, map, Bool-cases, Option-cases, inl, inr, Member,
}
use fincrypt.Cache.{Db, Cache, WireEnvelope, CachedEnvelope}
use fincrypt.Sync.Merge.{row_of, keeps_stored, store_newer, merge_change, merge_all}
use fincrypt.Sync.Merge.Rows.{newer, wire_key, change_of, row_at, row_at-store_newer}

-- At least as new.
abbrev pub NotOlder : CachedEnvelope → CachedEnvelope → Type 0
NotOlder r r' = str_lt r.ts r'.ts ≡ false

newer-NotOlder :
    (r' : CachedEnvelope) (e : WireEnvelope)
    → (r : CachedEnvelope) × (newer (some r') e ≡ some r) × NotOlder r r'
newer-NotOlder r' e = elim (Bool-cases (str_lt r'.ts e.ts)) [
  | inl later ↦ (row_of e, ground arith, ground (arith, str_lt_asymm r'.ts e.ts))
  | inr kept ↦ (r', ground arith, str_lt_irrefl r'.ts)
]

newer-of_change :
    (o : Option CachedEnvelope) (e : WireEnvelope)
    → (r : CachedEnvelope) × (newer o e ≡ some r) × NotOlder r (row_of e)
newer-of_change none e = (row_of e, refl, str_lt_irrefl e.ts)
newer-of_change (some r') e = elim (Bool-cases (str_lt r'.ts e.ts)) [
  | inl later ↦ (row_of e, ground arith, str_lt_irrefl e.ts)
  | inr kept ↦ (r', ground arith, kept)
]

module _ (db : Db) where
  -- A row that was stored under a key, or that one of the changes brings for it.
  abbrev pub Candidate : Cache db → List WireEnvelope → Str → CachedEnvelope → Type 0
  Candidate c es k r =
      (row_at db c k ≡ some r)
      ⊎ ((e : WireEnvelope) × Member e es × (wire_key e ≡ k) × (r ≡ row_of e))

  abbrev pub merged : Cache db → List WireEnvelope → Cache db
  merged c es = merge_all db c (map change_of es)

  merge_change-change_of :
      (c : Cache db) (e : WireEnvelope) → merge_change db c (change_of e) ≡ store_newer db e c
  unfolding merge_change
  merge_change-change_of c e = refl

  store_newer-NotOlder :
      (c : Cache db) (e : WireEnvelope) (k : Str) (r' : CachedEnvelope)
      → row_at db c k ≡ some r'
      → (r : CachedEnvelope) × (row_at db (store_newer db e c) k ≡ some r) × NotOlder r r'
  store_newer-NotOlder c e k r' h = elim (Bool-cases (str_eq (wire_key e) k)) [
    | inl same ↦
        let (r, new, later) = newer-NotOlder r' e in
        (r, row_at-store_newer db c e k ∙ rw (same, h) new, later)
    | inr other ↦ (r', row_at-store_newer db c e k ∙ rw other h, str_lt_irrefl r'.ts)
  ]

  merged-NotOlder :
      (c : Cache db) (es : List WireEnvelope) (k : Str) (r' : CachedEnvelope)
      → row_at db c k ≡ some r'
      → (r : CachedEnvelope) × (row_at db (merged c es) k ≡ some r) × NotOlder r r'
  unfolding merge_all
  merged-NotOlder c [] k r' h = (r', h, str_lt_irrefl r'.ts)
  merged-NotOlder c (e ∷ es) k r' h =
      let (r₁, there, later) = store_newer-NotOlder c e k r' h in
      let (r, final, latest) =
        merged-NotOlder (merge_change db c (change_of e)) es k r₁
          (rw (merge_change-change_of c e) there) in
      (r, final, str_lt_negative_trans r'.ts r₁.ts r.ts later latest)

  merged-of_change :
      (c : Cache db) (es : List WireEnvelope) (e : WireEnvelope)
      → Member e es
      → (r : CachedEnvelope) × (row_at db (merged c es) (wire_key e) ≡ some r)
        × NotOlder r (row_of e)
  unfolding merge_all
  merged-of_change c [] e m = absurd m
  merged-of_change c (x ∷ es) e (inl same) =
      let (r₁, new, later) = newer-of_change (row_at db c (wire_key x)) x in
      let there : row_at db (store_newer db x c) (wire_key x) ≡ some r₁ =
        row_at-store_newer db c x (wire_key x) ∙ rw (str_eq_refl (wire_key x)) new in
      let (r, final, latest) =
        merged-NotOlder (merge_change db c (change_of x)) es (wire_key x) r₁
          (rw (merge_change-change_of c x) there) in
      rw same (r, final, str_lt_negative_trans x.ts r₁.ts r.ts later latest)
  merged-of_change c (x ∷ es) e (inr m) = merged-of_change (merge_change db c (change_of x)) es e m

  merged-Candidate :
      (c : Cache db) (es : List WireEnvelope) (k : Str) (r : CachedEnvelope)
      → row_at db (merged c es) k ≡ some r
      → Candidate c es k r
  unfolding merge_all
  merged-Candidate c [] k r h = inl h
  merged-Candidate c (e ∷ es) k r h =
      elim (merged-Candidate (merge_change db c (change_of e)) es k r h) [
        | inr (x, m, key, same) ↦ inr (x, inr m, key, same)
        | inl stored ↦
            let stored' =
              sym (row_at-store_newer db c e k) ∙ rw (merge_change-change_of c e) at stored in
            elim (Bool-cases (str_eq (wire_key e) k)) [
              | inr other ↦ inl (rw other at stored')
              | inl same ↦
                  let kept_or_new : newer (row_at db c k) e ≡ some r = rw same at stored' in
                  elim (Bool-cases (keeps_stored (row_at db c k) e)) [
                    | inl keeps ↦ inl (rw keeps at kept_or_new)
                    | inr fresh ↦
                        let new : some (row_of e) ≡ some r = rw fresh at kept_or_new in
                        let made : r ≡ row_of e = cc new in
                        inr (e, inl refl, (str_eq_iff (wire_key e) k).0 same, made)
                  ]
            ]
      ]

  -- Of the row that was stored under a key and of all rows that the changes bring for it, the cache
  -- holds one after the merge, and none of them has a greater timestamp.
  pub merged_newest :
      (c : Cache db) (es : List WireEnvelope) (k : Str) (r' : CachedEnvelope)
      → Candidate c es k r'
      → (r : CachedEnvelope) × (row_at db (merged c es) k ≡ some r)
        × Candidate c es k r
        × NotOlder r r'
  merged_newest c es k r' (inl stored) =
      let (r, final, latest) = merged-NotOlder c es k r' stored in
      (r, final, merged-Candidate c es k r final, latest)
  merged_newest c es k r' (inr (e, m, key, same)) =
      let (r, final, latest) = merged-of_change c es e m in
      let final' : row_at db (merged c es) k ≡ some r = rw key at final in
      (r, final', merged-Candidate c es k r final', rw same latest)

  Candidate-of_same :
      (c : Cache db) (es es' : List WireEnvelope) (k : Str) (r : CachedEnvelope)
      → ((e : WireEnvelope) → Member e es ↔ Member e es')
      → Candidate c es k r
      → Candidate c es' k r
  Candidate-of_same c es es' k r same (inl stored) = inl stored
  Candidate-of_same c es es' k r same (inr (e, m, key, made)) = inr (e, (same e).0 m, key, made)

  -- Two devices that start from one cache and merge the same envelopes, in any order and any number
  -- of times each, hold the same row under a key, if no two different rows for that key have one
  -- timestamp.
  pub merge_converges :
      (c : Cache db) (es es' : List WireEnvelope) (k : Str)
      → ((e : WireEnvelope) → Member e es ↔ Member e es')
      → ((r r' : CachedEnvelope) → Candidate c es k r → Candidate c es k r' → r.ts ≡ r'.ts → r ≡ r')
      → row_at db (merged c es) k ≡ row_at db (merged c es') k
  merge_converges c es es' k same no_ties = elim (Option-cases (row_at db (merged c es) k)) [
    | inl nothing ↦ elim (Option-cases (row_at db (merged c es') k)) [
      | inl nothing' ↦ nothing ∙ sym nothing'
      | inr (r', final') ↦
          let back =
            Candidate-of_same c es' es k r' (λ e. ((same e).1, (same e).0))
              (merged-Candidate c es' k r' final') in
          let (r, final, _, _) = merged_newest c es k r' back in cc
    ]
    | inr (r, final) ↦
        let mine = merged-Candidate c es k r final in
        let (r', final', yours', later') =
          merged_newest c es' k r (Candidate-of_same c es es' k r same mine) in
        let yours = Candidate-of_same c es' es k r' (λ e. ((same e).1, (same e).0)) yours' in
        let (r₂, final₂, _, later) = merged_newest c es k r' yours in
        let one : r ≡ r₂ = cc (final, final₂) in
        let later₂ = subst (λ (x : CachedEnvelope). str_lt x.ts r'.ts ≡ false) (sym one) later in
        final
        ∙ ap some (no_ties r r' mine yours (str_lt_connected r.ts r'.ts later₂ later'))
        ∙ sym final'
  ]
