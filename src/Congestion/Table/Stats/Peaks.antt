-- ===== src/Congestion/Table/Stats/Peaks.antt =====
-- Theorems on the highest congestion, of src/db/slot_congestion_ops.rs.
use preconfirmation_gateway.Common.{
  ℕ, ◌≡◌, ◌∙◌, ◌⊎◌, refl, ap, subst, arith, false, Bool-cases, Option, none, some, [], ◌∷◌, ◌++◌,
  map, select, Option-cases, inl, inr, ok, ok-injective, not,
}
use preconfirmation_gateway.Float.{F64, lit, IsIeee}
use preconfirmation_gateway.Sql.{PgPool, congestion_stats, highest_congestion}
use preconfirmation_gateway.Congestion.{SlotCongestion}
use preconfirmation_gateway.Congestion.Table.{CongestionTable}
use preconfirmation_gateway.Congestion.Table.Stats.{
  Aggregates, CongestionStats, is_recent, peak, top, summary, slot_of, coalesce,
  get_congestion_stats,
}

module _ {ℓ} {F : Type ℓ} ⦃f : F64 F⦄ (aggregates : Aggregates F) where
  -- The row stands first among those of the highest ratio of the table.
  pub record IsTop (row : SlotCongestion F) (table : CongestionTable F) : Type ℓ where
    pub before : CongestionTable F
    pub after : CongestionTable F
    pub stands : table ≡ before ++ row ∷ after
    pub highest : peak aggregates (map (λ r. r.gas_used_ratio) table) ≡ some row.gas_used_ratio

  abbrev ratio_of : Option (SlotCongestion F) → Option F
  ratio_of none = none
  ratio_of (some row) = some row.gas_used_ratio

  peak-eq-top :
      (table : CongestionTable F)
      → peak aggregates (map (λ r. r.gas_used_ratio) table) ≡ ratio_of (top aggregates table)
  unfolding top peak
  peak-eq-top [] = refl
  peak-eq-top (r ∷ rows) = elim (Option-cases (top aggregates rows)) [
    | inl p ↦ (let rest = peak-eq-top rows in rw (rest, p) refl)
    | inr (q, p) ↦
        (let rest = peak-eq-top rows in
          rw (rest, p)
            (elim (Bool-cases (aggregates.precedes q.gas_used_ratio r.gas_used_ratio)) [
              | inl less ↦ rw less refl
              | inr more ↦ rw more refl
            ]))
  ]

  top-stands :
      (row : SlotCongestion F) (table : CongestionTable F)
      → top aggregates table ≡ some row
      → (before : CongestionTable F) × (after : CongestionTable F) × (table ≡ before ++ row ∷ after)
  unfolding top
  top-stands row [] h = cc
  top-stands row (r ∷ rows) h = elim (Option-cases (top aggregates rows)) [
    | inl p ↦
        (let e : r ≡ row = (let g = rw (top, p) at h in cc) in ([], rows, ap (λ q. q ∷ rows) e))
    | inr (q, p) ↦ elim (Bool-cases (aggregates.precedes q.gas_used_ratio r.gas_used_ratio)) [
      | inl less ↦
          (let e : r ≡ row = (let g = rw (top, p, less) at h in cc) in
            ([], rows, ap (λ q. q ∷ rows) e))
      | inr more ↦
          (let e : some q ≡ some row = (let g = rw (top, p, more) at h in g) in
            let (before, after, stands) = top-stands row rows (p ∙ e) in
            (r ∷ before, after, ap (λ rest. r ∷ rest) stands))
    ]
  ]

  top-IsTop :
      (row : SlotCongestion F) (table : CongestionTable F)
      → top aggregates table ≡ some row
      → IsTop row table
  top-IsTop row table h =
      let (before, after, stands) = top-stands row table h in
      record {
        before = before;
        after = after;
        stands = stands;
        highest = peak-eq-top table ∙ ap ratio_of h;
      }

  -- What the statistics say of the highest congestion.
  abbrev Says : ℕ → CongestionTable F → CongestionStats F → Type ℓ
  Says now table stats =
      (f.lt (lit 0) stats.highest_congestion_ratio ≡ false)
      ⊎ ((row : SlotCongestion F) × (stats.highest_congestion_slot ≡ some row.slot)
          × (stats.highest_congestion_ratio ≡ row.gas_used_ratio)
          × IsTop row (select (is_recent now) table))

  zero-lt : IsIeee F → f.lt (lit 0) (lit 0) ≡ false
  zero-lt laws =
      let finite = laws.of_u64_finite 0 (omega arith) in
      laws.lt-eq-not-le (lit 0) (lit 0) finite finite ∙ ap not (laws.le_refl (lit 0) finite)

  summary-Says :
      IsIeee F
      → (now : ℕ) (table : CongestionTable F)
      → Says now table (
          summary aggregates
            (select (is_recent now) table)
            (slot_of (top aggregates (select (is_recent now) table))))
  unfolding summary
  summary-Says laws now table =
      let rows = select (is_recent now) table in
      elim (Option-cases (top aggregates rows)) [
        | inl p ↦ inl (
            ap (λ o. f.lt (lit 0) (coalesce o (lit 0))) (peak-eq-top rows ∙ ap ratio_of p)
            ∙ zero-lt laws)
        | inr (row, p) ↦ inr (
          row,
          ap slot_of p,
          ap (λ o. coalesce o (lit 0)) (peak-eq-top rows ∙ ap ratio_of p),
          top-IsTop row rows p,
        )
      ]

  -- The slot of the highest congestion is that of a row of the last 24 hours, or to come, with just the ratio
  -- that is reported, where the table stays the same between the two queries; without such a row no ratio
  -- above zero is reported.
  pub get_congestion_stats-IsTop :
      IsIeee F
      → (pool : PgPool) (now : ℕ) (table : CongestionTable F) (stats : CongestionStats F)
      → get_congestion_stats aggregates pool now now table table ≡ ok stats
      → Says now table stats
  unfolding get_congestion_stats
  get_congestion_stats-IsTop laws pool now table stats h =
      let rows = select (is_recent now) table in
      elim (Bool-cases (pool congestion_stats)) [
        | inl down ↦ (let g = rw (get_congestion_stats, down) at h in cc)
        | inr up ↦
            elim (Bool-cases
              (f.lt (lit 0) (summary aggregates rows none).highest_congestion_ratio)) [
                | inr low ↦
                    subst (Says now table) (ok-injective (rw (get_congestion_stats, up, low) at h))
                      (inl low)
                | inl high ↦ elim (Bool-cases (pool highest_congestion)) [
                  | inl down ↦ (let g = rw (get_congestion_stats, up, high, down) at h in cc)
                  | inr works ↦
                      subst (Says now table)
                        (ok-injective (rw (get_congestion_stats, up, high, works) at h))
                        (summary-Says laws now table)
                ]
              ]
      ]
