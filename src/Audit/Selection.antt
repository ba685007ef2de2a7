-- ===== src/Audit/Selection.antt =====
-- Which rows a query of the audit log selects, and in which order (internal/audit/audit.go).
use native.Mathlib.Nat.{add-zero, add-suc, suc-add}
use mathlib.Core.List.Memᴰ
use mathlib.Core.List.{Memᴰ}
use open_kmip_server.Common.{
  ℕ, suc, ◌+◌, ◌≤◌, String, true, ◌≡◌, ◌⊎◌, inl, inr, ◌↔◌, List, [], ◌∷◌, arith, length, eq_iff,
  Bool-cases,
}
use open_kmip_server.Audit.{Entry, Logger, matching, newest_first, select_wanted, is_wanted}

-- The rows of the table are numbered from `first` on, in the order in which they were inserted: the
-- entry is one of them, with its number.
abbrev pub IsRow : List Entry → ℕ → ℕ × Entry → Type 0
IsRow [] first row = ⊥
IsRow (entry ∷ rows) first row = (row ≡ (first, entry)) ⊎ IsRow rows (suc first) row

-- What a caller asks for: an operation and a status, either of them empty for any.
abbrev pub IsAsked : String → String → Entry → Type 0
IsAsked operation status entry =
    ((operation ≡ "") ⊎ (entry.operation ≡ operation)) × ((status ≡ "") ⊎ (entry.status ≡ status))

-- Each row has a smaller id than the row before it, and all are below a bound.
abbrev pub Descends : ℕ → List (ℕ × Entry) → Type 0
Descends bound [] = Unit
Descends bound ((id, entry) ∷ rows) = (suc id ≤ bound) × Descends id rows

is_wanted-IsAsked :
    (operation status : String) (entry : Entry)
    → (is_wanted operation status entry ≡ true) ↔ IsAsked operation status entry
is_wanted-IsAsked operation status entry = ground (
  arith,
  eq_iff operation "",
  eq_iff entry.operation operation,
  eq_iff status "",
  eq_iff entry.status status,
)

select_wanted-Mem :
    (operation status : String) (rows : List (ℕ × Entry)) (row : ℕ × Entry)
    → Memᴰ row (select_wanted operation status rows)
      ↔ (Memᴰ row rows × (is_wanted operation status row.1 ≡ true))
unfolding select_wanted
select_wanted-Mem operation status [] row = (λ m. absurd (Memᴰ.not-nil m), λ m. m.0)
select_wanted-Mem operation status (first ∷ rows) row =
    let ih = select_wanted-Mem operation status rows row in
    elim (Bool-cases (is_wanted operation status first.1)) [
      | inl kept ↦ rw kept (
        λ m. elim (Memᴰ.cases_cons m) [
          | inl same ↦ (Memᴰ.head same, rw same kept)
          | inr below ↦ (Memᴰ.tail (ih.0 below).0, (ih.0 below).1)
        ],
        λ m. elim (Memᴰ.cases_cons m.0) [
          | inl same ↦ Memᴰ.head same
          | inr below ↦ Memᴰ.tail (ih.1 (below, m.1))
        ],
      )
      | inr dropped ↦ rw dropped (
        λ m. (Memᴰ.tail (ih.0 m).0, (ih.0 m).1),
        λ m. elim (Memᴰ.cases_cons m.0) [
          | inl same ↦ absurd (ground (arith, dropped, same, m.1))
          | inr below ↦ ih.1 (below, m.1)
        ],
      )
    ]

newest_first-Mem :
    (first : ℕ) (rows : List Entry) (newer : List (ℕ × Entry)) (row : ℕ × Entry)
    → Memᴰ row (newest_first first rows newer) ↔ (IsRow rows first row ⊎ Memᴰ row newer)
unfolding newest_first
newest_first-Mem first [] newer row =
    (λ m. inr m, λ m. elim m [ inl none_there ↦ absurd none_there | inr old ↦ old ])
newest_first-Mem first (entry ∷ rows) newer row =
    let ih = newest_first-Mem (suc first) rows ((first, entry) ∷ newer) row in
    (
      λ m. elim (ih.0 m) [
        | inl later ↦ inl (inr later)
        | inr old ↦ elim (Memᴰ.cases_cons old) [ inl same ↦ inl (inl same) | inr older ↦ inr older ]
      ],
      λ m. elim m [
        | inl own ↦ elim own [
          | inl same ↦ ih.1 (inr (Memᴰ.head same))
          | inr later ↦ ih.1 (inl later)
        ]
        | inr older ↦ ih.1 (inr (Memᴰ.tail older))
      ],
    )

newest_first-Descends :
    (first : ℕ) (rows : List Entry) (newer : List (ℕ × Entry))
    → Descends first newer
    → Descends (first + length rows) (newest_first first rows newer)
unfolding newest_first
newest_first-Descends first [] newer h = rw add-zero h
newest_first-Descends first (entry ∷ rows) newer h =
    rw (add-suc, ← suc-add)
      (newest_first-Descends (suc first) rows ((first, entry) ∷ newer) (omega arith, h))

Descends-weaken :
    (bound more : ℕ) (rows : List (ℕ × Entry))
    → bound ≤ more
    → Descends bound rows
    → Descends more rows
Descends-weaken bound more [] h d = tt
Descends-weaken bound more ((id, entry) ∷ rows) h d = (omega (arith, h, d.0), d.1)

select_wanted-Descends :
    (operation status : String) (bound : ℕ) (rows : List (ℕ × Entry))
    → Descends bound rows
    → Descends bound (select_wanted operation status rows)
unfolding select_wanted
select_wanted-Descends operation status bound [] d = tt
select_wanted-Descends operation status bound ((id, entry) ∷ rows) d =
    elim (Bool-cases (is_wanted operation status entry)) [
      | inl kept ↦ rw kept (d.0, select_wanted-Descends operation status id rows d.1)
      | inr dropped ↦ rw dropped (
          Descends-weaken id bound _ (omega (arith, d.0))
            (select_wanted-Descends operation status id rows d.1))
    ]

module _ (a : Logger) (operation status : String) where
  pub matching-Mem :
      (row : ℕ × Entry)
      → Memᴰ row (matching a operation status)
        ↔ (IsRow a.rows 1 row × IsAsked operation status row.1)
  unfolding matching
  matching-Mem row =
      let selected = select_wanted-Mem operation status (newest_first 1 a.rows []) row in
      let numbered = newest_first-Mem 1 a.rows [] row in
      let asked = is_wanted-IsAsked operation status row.1 in
      (
        λ m. (
          elim (numbered.0 (selected.0 m).0) [
            | inl is ↦ is
            | inr nothing ↦ absurd (Memᴰ.not-nil nothing)
          ],
          asked.0 (selected.0 m).1,
        ),
        λ m. selected.1 (numbered.1 (inl m.0), asked.1 m.1),
      )

  pub matching-Descends : Descends (1 + length a.rows) (matching a operation status)
  unfolding matching
  matching-Descends =
      select_wanted-Descends operation status (1 + length a.rows) (newest_first 1 a.rows [])
        (newest_first-Descends 1 a.rows [] tt)
