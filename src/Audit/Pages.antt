-- ===== src/Audit/Pages.antt =====
-- The pages of the audit log (internal/audit/audit.go).
use mathlib.Core.List.{Memᴰ}
use open_kmip_server.Common.{ℕ, ◌+◌, ◌≤◌, String, true, ◌≡◌, ◌↔◌, refl, List, ◌++◌, length}
use open_kmip_server.Common.Slices.{drop, take-more, drop-drop, length-take, take-all}
use open_kmip_server.Audit.{Entry, Logger, query, matching}
use open_kmip_server.Audit.Selection.{IsRow, IsAsked, Descends, matching-Mem, matching-Descends}

-- The page of all rows that a query reports.
abbrev pub full_page : Logger → String → String → List (ℕ × Entry)
full_page a operation status =
    (query true true a (query true true a 0 0 operation status).1 0 operation status).0

-- Where its statements run: the page from offset 0 with the reported total as its limit has as many rows
-- as the total, and they are the rows of the table, with the numbers in which they were inserted, that
-- have the operation and the status asked for, where these are not empty, with decreasing numbers; a
-- page has at most as many rows as its limit; and a page and the one that begins behind it are the page
-- of both their limits.
pub query-pages :
    (a : Logger) (operation status : String) (limit more offset : ℕ) (row : ℕ × Entry)
    → (Memᴰ row (full_page a operation status)
        ↔ (IsRow a.rows 1 row × IsAsked operation status row.1))
      × Descends (1 + length a.rows) (full_page a operation status)
      × ((query true true a limit offset operation status).1
          ≡ length (full_page a operation status))
      × (length (query true true a limit offset operation status).0 ≤ limit)
      × ((query true true a limit offset operation status).0
            ++ (query true true a more (offset + limit) operation status).0
          ≡ (query true true a (limit + more) offset operation status).0)
unfolding query
query-pages a operation status limit more offset row = rw (take-all (matching a operation status)) (
  matching-Mem a operation status row,
  matching-Descends a operation status,
  refl,
  length-take limit _,
  rw (← drop-drop offset limit (matching a operation status))
      (take-more limit more (drop offset (matching a operation status))),
)
