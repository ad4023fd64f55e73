-- ===== src/Dblog/Converge/Batch.antt =====
-- One key through one dump batch: the window's events, then the rows of the page that they do not
-- stand in for.
use pydblog.Prelude.{
  ℕ, suc, ◌+◌, ◌-◌, ◌≤◌, ◌≡◌, sym, ◌∙◌, ◌⊎◌, inl, inr, true, false, none, List, ◌++◌, any, arith,
  Bool-cases, if◌then◌else◌,
}
use pydblog.Prelude.Int.{ℤ}
use pydblog.Frame.{Row}
use pydblog.Source.{Layout, Image, has_key, after, History, as_of, events_from, page_image}
use pydblog.Source.Events.{
  after-append, after-untouched, after-touched, as_of-events_from, as_of-untouched,
}
use pydblog.Dblog.Converge.Rows.{page_image-absent}

-- What a consumer may know of a key before the walk reaches it: the table's image, or nothing.
abbrev pub IsKnown : Layout → History → ℕ → ℤ → Image → Type 0
IsKnown Y h n k old = (old ≡ as_of Y h n k) ⊎ (old ≡ none)

module _ (Y : Layout) (h : History) (k : ℤ) (base count : ℕ) (rows events : List Row)
    (stays : (old : Image)
      → after Y k old events ≡ (
          if any (has_key Y k) (events_from h (suc base) count)
          then old
          else if any (has_key Y k) rows
          then page_image Y k rows
          else old)) where
  -- The page showed the key as the table had it at a moment inside the batch.
  pub record IsSeen : Type 0 where
    pub moment : ℕ
    pub not_before : base ≤ moment
    pub not_after : moment ≤ base + count
    pub shown : page_image Y k rows ≡ as_of Y h moment k

  abbrev left : Image → Image
  left old = after Y k old (events_from h (suc base) count ++ events)

  -- An event of the window settles the key.
  by_event :
      (old : Image)
      → any (has_key Y k) (events_from h (suc base) count) ≡ true
      → left old ≡ as_of Y h (base + count) k
  by_event old hit =
      after-append Y k old (events_from h (suc base) count) events
      ∙ stays _
      ∙ rw hit (
          after-touched Y k old (as_of Y h base k) (events_from h (suc base) count) hit
          ∙ sym (as_of-events_from Y h k base count))

  -- Without one, the page settles it where it has the row, and else nothing changes.
  by_page :
      (old : Image)
      → any (has_key Y k) (events_from h (suc base) count) ≡ false
      → left old ≡ (if any (has_key Y k) rows then page_image Y k rows else old)
  by_page old miss =
      after-append Y k old (events_from h (suc base) count) events
      ∙ stays _
      ∙ rw (miss, after-untouched Y k old (events_from h (suc base) count) miss)

  -- Without one, the table keeps its image through the batch.
  steady :
      any (has_key Y k) (events_from h (suc base) count) ≡ false
      → (n : ℕ) → base ≤ n
      → n ≤ base + count
      → as_of Y h n k ≡ as_of Y h (base + count) k
  steady miss n low high =
      let e : n ≡ base + (n - base) = omega arith in
      rw e (
        as_of-untouched Y h k base count (n - base) miss (omega arith)
        ∙ sym (as_of-untouched Y h k base count count miss (omega arith)))

  pub batch-seen :
      (old : Image) → IsSeen → IsKnown Y h base k old → left old ≡ as_of Y h (base + count) k
  batch-seen old seen known =
      elim (Bool-cases (any (has_key Y k) (events_from h (suc base) count))) [
        | inl hit ↦ by_event old hit
        | inr miss ↦ elim (Bool-cases (any (has_key Y k) rows)) [
          | inl there ↦
              by_page old miss
              ∙ rw there (seen.shown ∙ steady miss seen.moment seen.not_before seen.not_after)
          | inr absent ↦
              by_page old miss
              ∙ rw absent
                  (unmoved miss (sym (page_image-absent Y k rows absent) ∙ seen.shown) known)
        ]
      ]
    where
      -- The table has no such row, and the consumer knows of none either.
      unmoved :
          any (has_key Y k) (events_from h (suc base) count) ≡ false
          → none ≡ as_of Y h seen.moment k
          → IsKnown Y h base k old
          → old ≡ as_of Y h (base + count) k
      unmoved miss gone (inl same) = same ∙ steady miss base (omega arith) (omega arith)
      unmoved miss gone (inr nothing) =
          nothing ∙ gone ∙ steady miss seen.moment seen.not_before seen.not_after

  pub batch-walked :
      (old : Image)
      → old ≡ as_of Y h base k
      → any (has_key Y k) rows ≡ false
      → left old ≡ as_of Y h (base + count) k
  batch-walked old same absent =
      elim (Bool-cases (any (has_key Y k) (events_from h (suc base) count))) [
        | inl hit ↦ by_event old hit
        | inr miss ↦
            by_page old miss ∙ rw absent (same ∙ steady miss base (omega arith) (omega arith))
      ]

  pub batch-IsKnown :
      (old : Image)
      → IsKnown Y h base k old
      → any (has_key Y k) rows ≡ false
      → IsKnown Y h (base + count) k (left old)
  batch-IsKnown old (inl same) absent = inl (batch-walked old same absent)
  batch-IsKnown old (inr nothing) absent =
      elim (Bool-cases (any (has_key Y k) (events_from h (suc base) count))) [
        | inl hit ↦ inl (by_event old hit)
        | inr miss ↦ inr (by_page old miss ∙ rw absent nothing)
      ]
