-- ===== src/Kmip/Framing/Messages.antt =====
-- The messages that the loop of handleConnection takes from a connection (internal/kmip/server.go).
use native.Mathlib.Nat.{suc-add}
use mathlib.Core.Path.{fun_ext}
use mathlib.Core.List.{append_assoc}
use open_kmip_server.Common.{
  ℕ, zero, suc, ◌+◌, ◌≤◌, Bool, false, ◌≡◌, refl, sym, ap, ◌∙◌, Option, none, some, List, [], ◌∷◌,
  ◌++◌, arith, ltb, length, length-append, Bool-cases, Option-cases, inl, inr,
}
use open_kmip_server.Common.Bytes.{Bytes}
use open_kmip_server.Common.Slices.{
  drop, take-append, drop-append, length-take_full, length-drop_full,
}
use open_kmip_server.Kmip.Framing.{
  max_ttlv_message_size, big_endian, read_full, read_body, read_message, reply_with,
  handle_connection,
}

-- A message: a header of eight bytes, whose last four have the length of the body, at most 10 MiB.
pub record IsMessage (request : Bytes) : Type 0 where
  pub header : Bytes
  pub body : Bytes
  pub parts : request ≡ header ++ body
  pub header_length : length header ≡ 8
  pub body_length : big_endian 0 (drop 4 header) ≡ length body
  pub fits : length body ≤ max_ttlv_message_size

read_full-append : (xs ys : Bytes) (n : ℕ) → n ≡ length xs → read_full n (xs ++ ys) ≡ some (xs, ys)
unfolding read_full
read_full-append xs ys n same =
    let long : ltb (length (xs ++ ys)) n ≡ false = ground (arith, length-append xs ys) in
    rw (read_full, long, same, take-append xs ys, drop-append xs ys) refl

read_body-append :
    (header body rest : Bytes)
    → big_endian 0 (drop 4 header) ≡ length body
    → length body ≤ max_ttlv_message_size
    → read_body header (body ++ rest) ≡ some (header ++ body, rest)
unfolding read_body
read_body-append header body rest same fits =
    let small : ltb max_ttlv_message_size (length body) ≡ false = ground (arith, fits) in
    rw (read_body, same, small, read_full-append body rest (length body) refl) refl

read_message-append :
    (request rest : Bytes)
    → IsMessage request
    → read_message (request ++ rest) ≡ some (request, rest)
unfolding read_message
read_message-append request rest m =
    let split : request ++ rest ≡ m.header ++ (m.body ++ rest) =
      rw m.parts (append_assoc m.header m.body rest) in
    rw
      (
        split,
        read_message,
        read_full-append m.header (m.body ++ rest) 8 (sym m.header_length),
        m.parts,
      )
      (read_body-append m.header m.body rest m.body_length m.fits)

read_full-parts :
    (n : ℕ) (incoming got rest : Bytes)
    → read_full n incoming ≡ some (got, rest)
    → (length got ≡ n) × (length rest + n ≡ length incoming)
unfolding read_full
read_full-parts n incoming got rest h = elim (Bool-cases (ltb (length incoming) n)) [
  | inl short ↦ absurd (ground (arith, short, h))
  | inr long ↦
      let enough : n ≤ length incoming = ground (arith, long) in
      ground
        (arith, h, long, length-take_full n incoming enough, length-drop_full n incoming enough)
]

-- What a message takes from the input.
abbrev Takes : Bytes → Bytes → Bytes → Bytes → Type 0
Takes header incoming request rest =
    (length rest + length request ≡ length incoming + length header)
    × (length header ≤ length request)
    × (length request ≤ length header + max_ttlv_message_size)

read_body-parts :
    (header incoming request rest : Bytes)
    → read_body header incoming ≡ some (request, rest)
    → Takes header incoming request rest
unfolding read_body
read_body-parts header incoming request rest h =
    elim (Bool-cases (ltb max_ttlv_message_size (big_endian 0 (drop 4 header)))) [
      | inl large ↦ absurd (ground (arith, large, h))
      | inr fits ↦ elim (Option-cases (read_full (big_endian 0 (drop 4 header)) incoming)) [
        | inl short ↦ absurd (ground (arith, fits, short, h))
        | inr ((body, after), found) ↦
            let (whole, left) = read_full-parts _ incoming body after found in
            ground (arith, fits, found, h, whole, left, length-append header body)
      ]
    ]

read_message-parts :
    (incoming request rest : Bytes)
    → read_message incoming ≡ some (request, rest)
    → (length rest + 8 ≤ length incoming)
      × (8 ≤ length request)
      × (length request ≤ 8 + max_ttlv_message_size)
unfolding read_message
read_message-parts incoming request rest h = elim (Option-cases (read_full 8 incoming)) [
  | inl short ↦ absurd (ground (arith, short, h))
  | inr ((header, after), found) ↦
      let (whole, left) = read_full-parts 8 incoming header after found in
      let taken = read_body-parts header after request rest (rw (read_message, found) at h) in
      (
        omega (arith, taken.0, taken.1, whole, left),
        omega (arith, taken.1, whole),
        omega (arith, taken.2, whole),
      )
]

-- Messages one after another, and what the connection brings after them.
abbrev pub stream : List Bytes → Bytes → Bytes
stream [] tail = tail
stream (request ∷ requests) tail = request ++ stream requests tail

abbrev pub AllMessages : List Bytes → Type 0
AllMessages [] = Unit
AllMessages (request ∷ requests) = IsMessage request × AllMessages requests

module _ {S : Type 0} (handle : Bytes → S → Option Bytes × S) (written : ℕ → Bool) where
  -- The requests are answered one after another, from round k on.
  unfoldable pub answer_all : ℕ → List Bytes → S → List Bytes × S
  answer_all k [] s = ([], s)
  answer_all k (request ∷ requests) s =
      reply_with handle written k (handle request s) (λ s'. answer_all (suc k) requests s')

  reply_with-ap :
      (k : ℕ) (r : Option Bytes × S) (f g : S → List Bytes × S)
      → ((s : S) → f s ≡ g s)
      → reply_with handle written k r f ≡ reply_with handle written k r g
  reply_with-ap k r f g same = ap (reply_with handle written k r) (fun_ext same)

  handle_connection-stop :
      (fuel k : ℕ) (incoming : Bytes) (s : S)
      → read_message incoming ≡ none
      → handle_connection handle written fuel k incoming s ≡ ([], s)
  unfolding handle_connection
  handle_connection-stop zero k incoming s ends = refl
  handle_connection-stop (suc fuel) k incoming s ends = rw (handle_connection, ends) refl

  -- With fuel for the length of the input, and whatever the handler does to a request, a panic included:
  -- on well-formed messages that come one after another, followed by bytes that are no whole message,
  -- the loop gives exactly these messages to the handler, in order, and writes its answers, until the
  -- handler panics or a write fails.
  pub handle_connection-messages :
      (requests : List Bytes) (tail : Bytes) (k fuel : ℕ) (s : S)
      → AllMessages requests
      → read_message tail ≡ none
      → length (stream requests tail) ≤ fuel
      → handle_connection handle written fuel k (stream requests tail) s ≡ answer_all k requests s
  unfolding handle_connection answer_all
  handle_connection-messages [] tail k fuel s all ends enough =
      handle_connection-stop fuel k tail s ends
  handle_connection-messages (request ∷ requests) tail k zero s all ends enough = absurd (
      omega (
        arith,
        enough,
        length-append request (stream requests tail),
        (read_message-parts _ _ _ (read_message-append request (stream requests tail) all.0)).1,
      ))
  handle_connection-messages (request ∷ requests) tail k (suc fuel) s all ends enough =
      rw (handle_connection, read_message-append request (stream requests tail) all.0)
        (reply_with-ap k (handle request s) _ _ (λ s'.
          handle_connection-messages requests tail (suc k) fuel s' all.1 ends (
            omega (
              arith,
              enough,
              length-append request (stream requests tail),
              (read_message-parts _ _ _
                  (read_message-append request (stream requests tail) all.0)).1,
            ))))

  -- Fuel for the length of the input is enough for any input: more of it changes nothing.
  pub handle_connection-fuel :
      (fuel more k : ℕ) (incoming : Bytes) (s : S)
      → length incoming ≤ fuel
      → handle_connection handle written (fuel + more) k incoming s
        ≡ handle_connection handle written fuel k incoming s
  unfolding handle_connection
  handle_connection-fuel zero more k incoming s enough =
      elim (Option-cases (read_message incoming)) [
        | inl ends ↦
            handle_connection-stop (0 + more) k incoming s ends
            ∙ sym (handle_connection-stop 0 k incoming s ends)
        | inr ((request, rest), found) ↦
            absurd (omega (arith, enough, (read_message-parts incoming request rest found).0))
      ]
  handle_connection-fuel (suc fuel) more k incoming s enough =
      elim (Option-cases (read_message incoming)) [
        | inl ends ↦
            handle_connection-stop (suc fuel + more) k incoming s ends
            ∙ sym (handle_connection-stop (suc fuel) k incoming s ends)
        | inr ((request, rest), found) ↦
            rw (suc-add, handle_connection, found)
              (reply_with-ap k (handle request s) _ _ (λ s'.
                handle_connection-fuel fuel more (suc k) rest s'
                  (omega (arith, enough, (read_message-parts incoming request rest found).0))))
      ]
