-- ===== src/Dns/Message/Names.antt =====
-- Names in a DNS message by their grammar (RFC 1035), and that `skip_name` skips exactly those.
use yayatht.Base.{ℕ, zero, suc, ◌+◌, ◌≤◌, ◌<◌, bit_and}
use yayatht.Base.{◌≡◌, refl, sym, ap, ◌∙◌, ◌⊎◌, inl, inr, not}
use yayatht.Base.{Option, some, List, [], ◌∷◌, ◌++◌, arith, leb, ◌==◌, Option-cases, if-cases}
use yayatht.Base.{
  length, get_elem?, take, drop, length-append, get_elem?-lt, length-take, length-drop, drop-drop,
  append_assoc, byte_at, take-drop,
}
use yayatht.Dns.Message.Bounds.{skip_from-inside}
use yayatht.Dns.Message.{skip_label, skip_from}

-- A name of fewer than so many labels, as it stands in a message: labels behind their lengths, up to
-- the root or to a compression pointer.
pub data IsName : ℕ → List ℕ → Type 0 where
  root : {n : ℕ} → IsName (suc n) (0 ∷ [])
  pointer : {n : ℕ} (high low : ℕ) → bit_and high 0xc0 ≡ 0xc0 → IsName (suc n) (high ∷ low ∷ [])
  label :
      {n : ℕ} {name : List ℕ} (len : ℕ) (bytes : List ℕ)
      → 0 < len
      → bit_and len 0xc0 ≡ 0
      → length bytes ≡ len
      → IsName n name
      → IsName (suc n) (len ∷ (bytes ++ name))

-- A name in a message, from one offset to another.
pub record Named (rounds : ℕ) (message : List ℕ) (offset end : ℕ) : Type 0 where
  pub name : List ℕ
  pub rest : List ℕ
  pub bytes_are : drop offset message ≡ name ++ rest
  pub ends : offset + length name ≡ end
  pub well_formed : IsName rounds name

drop-inside :
    (xs : List ℕ) (i : ℕ)
    → i < length xs
    → (x : ℕ) × (get_elem? xs i ≡ some x) × (drop i xs ≡ x ∷ drop (i + 1) xs)
drop-inside [] i h = absurd (omega arith)
drop-inside (x ∷ xs) zero h = (x, refl, refl)
drop-inside (x ∷ xs) (suc i) h =
    let (y, found, tail) = drop-inside xs i (omega arith) in
    (y, found, tail ∙ ap (λ k. y ∷ drop k (x ∷ xs)) {x = suc (i + 1)} {y = suc i + 1} (omega arith))

byte_at-found : (xs : List ℕ) (i x : ℕ) → get_elem? xs i ≡ some x → byte_at xs i ≡ x
byte_at-found [] i x h = absurd cc
byte_at-found (y ∷ xs) zero x h = ground arith
byte_at-found (y ∷ xs) (suc i) x h = byte_at-found xs i x h

-- One round, at an offset inside the message.
skip_from-step :
    (rounds : ℕ) (message : List ℕ) (offset len : ℕ)
    → get_elem? message offset ≡ some len
    → skip_from (suc rounds) message offset
      ≡ skip_label message offset (some len) (skip_from rounds message (offset + (len + 1)))
unfolding skip_from
skip_from-step rounds message offset len found =
    rw (byte_at-found message offset len found, found) refl

drop-found : (xs : List ℕ) (i x : ℕ) → get_elem? xs i ≡ some x → drop i xs ≡ x ∷ drop (i + 1) xs
drop-found xs i x h =
    let (y, found, tail) = drop-inside xs i (get_elem?-lt xs i x h) in
    ground (arith, found, tail, h)

skip_label-cases :
    (message : List ℕ) (offset len end : ℕ) (rest : Option ℕ)
    → skip_label message offset (some len) rest ≡ some end
    → ((len ≡ 0) × (end ≡ offset + 1))
      ⊎ (((bit_and len 0xc0 ≡ 0xc0) × (offset + 2 ≤ length message) × (end ≡ offset + 2))
          ⊎ ((0 < len) × (bit_and len 0xc0 ≡ 0) × (rest ≡ some end)))
unfolding skip_label
skip_label-cases message offset len end rest =
    let Ends : Option ℕ → Type 0 = λ r.
      r ≡ some end
      → ((len ≡ 0) × (end ≡ offset + 1))
        ⊎ (((bit_and len 0xc0 ≡ 0xc0) × (offset + 2 ≤ length message) × (end ≡ offset + 2))
            ⊎ ((0 < len) × (bit_and len 0xc0 ≡ 0) × (rest ≡ some end))) in
    if-cases Ends (len == 0) (λ nil h. inl (ground arith, ground arith))
      (λ positive.
        if-cases Ends (bit_and len 0xc0 == 0xc0)
          (λ tag.
            if-cases Ends (leb (offset + 2) (length message))
              (λ inside h. inr (inl (ground arith, ground arith, ground arith)))
              (λ outside h. absurd cc))
          (λ other.
            if-cases Ends (not (bit_and len 0xc0 == 0)) (λ reserved h. absurd cc)
              (λ tag h. inr (inr (ground arith, ground arith, h)))))

-- A label and the name behind it.
labelled :
    (rounds : ℕ) (message : List ℕ) (offset len end : ℕ)
    → get_elem? message offset ≡ some len
    → 0 < len
    → bit_and len 0xc0 ≡ 0
    → offset + (len + 1) ≤ length message
    → Named rounds message (offset + (len + 1)) end
    → Named (suc rounds) message offset end
labelled rounds message offset len end found some_len tag inside n =
    let tail = drop (offset + 1) message in
    let bytes = take len tail in
    let size : length bytes ≡ len =
      omega (arith, length-take len tail, length-drop (offset + 1) message, inside) in
    let further : drop len tail ≡ n.name ++ n.rest =
      drop-drop len (offset + 1) message ∙ ap (λ k. drop k message) (omega arith) ∙ n.bytes_are in
    record {
      name = len ∷ (bytes ++ n.name);
      rest = n.rest;
      bytes_are =
          drop-found message offset len found
          ∙ ap (◌∷◌ len) (
              sym (take-drop len tail)
              ∙ ap (bytes ++◌) further
              ∙ sym (append_assoc bytes n.name n.rest));
      ends = omega (arith, length-append bytes n.name, size, n.ends);
      well_formed = label len bytes some_len tag size n.well_formed;
    }

pub skip_from-Named :
    (rounds : ℕ) (message : List ℕ) (offset end : ℕ)
    → skip_from rounds message offset ≡ some end
    → Named rounds message offset end
skip_from-Named zero message offset end h = absurd (unfold skip_from in cc)
skip_from-Named (suc rounds) message offset end h = elim (Option-cases (get_elem? message offset)) [
  | inl out ↦
      let inside = skip_from-inside (suc rounds) message offset end h in
      let there = drop-inside message offset (omega (arith, inside.0, inside.1)) in
      absurd (ground (arith, out, there.1))
  | inr (len, found) ↦
      let next = offset + (len + 1) in
      elim (skip_label-cases message offset len end (skip_from rounds message next)
        (sym (skip_from-step rounds message offset len found) ∙ h)) [
          | inl (nil, e) ↦ record {
            name = 0 ∷ [];
            rest = drop (offset + 1) message;
            bytes_are =
                drop-found message offset len found ∙ ap (λ k. k ∷ drop (offset + 1) message) nil;
            ends = omega (arith, e);
            well_formed = root;
          }
          | inr (inl (tag, inside, e)) ↦
              let (low, there, tail) = drop-inside message (offset + 1) (omega (arith, inside)) in
              record {
                name = len ∷ low ∷ [];
                rest = drop (offset + 1 + 1) message;
                bytes_are = drop-found message offset len found ∙ ap (◌∷◌ len) tail;
                ends = omega (arith, e);
                well_formed = pointer len low tag;
              }
          | inr (inr (positive, tag, rest)) ↦
              labelled rounds message offset len end found positive tag
                (let b = skip_from-inside rounds message next end rest in omega (arith, b.0, b.1))
                (skip_from-Named rounds message next end rest)
        ]
]

get_elem?-append :
    (xs : List ℕ) (x : ℕ) (ys : List ℕ) → get_elem? (xs ++ (x ∷ ys)) (length xs) ≡ some x
get_elem?-append [] x ys = refl
get_elem?-append (y ∷ xs) x ys = get_elem?-append xs x ys

skip_label-pointer :
    (message : List ℕ) (offset high : ℕ) (rest : Option ℕ)
    → bit_and high 0xc0 ≡ 0xc0
    → offset + 2 ≤ length message
    → skip_label message offset (some high) rest ≡ some (offset + 2)
unfolding skip_label
skip_label-pointer message offset high rest tag inside =
    let P : Option ℕ → Type 0 = λ r. r ≡ some (offset + 2) in
    if-cases P (high == 0)
      (λ nil. absurd (
        let was : high ≡ 0 = ground arith in
        let no : 0 ≡ 0xc0 = sym (ap (λ k. bit_and k 0xc0) was) ∙ tag in omega (arith, no)))
      (λ positive. ground arith)

skip_label-label :
    (message : List ℕ) (offset len : ℕ) (rest : Option ℕ)
    → 0 < len
    → bit_and len 0xc0 ≡ 0
    → skip_label message offset (some len) rest ≡ rest
unfolding skip_label
skip_label-label message offset len rest positive tag = ground arith

-- A name is skipped to its end.
pub skip_from-IsName :
    (rounds : ℕ) (name header rest message : List ℕ)
    → IsName rounds name
    → message ≡ header ++ (name ++ rest)
    → skip_from rounds message (length header) ≡ some (length header + length name)
skip_from-IsName zero name header rest message n is = elim n [ ]
skip_from-IsName (suc n) name header rest message root is =
    let found : get_elem? message (length header) ≡ some 0 =
      rw is (get_elem?-append header 0 rest) in
    skip_from-step n message (length header) 0 found ∙ unfold skip_label in refl
skip_from-IsName (suc n) name header rest message (pointer high low tag) is =
    let found : get_elem? message (length header) ≡ some high =
      rw is (get_elem?-append header high (low ∷ rest)) in
    let size : length message ≡ length header + (2 + length rest) =
      ap length is ∙ length-append header (high ∷ low ∷ rest) ∙ omega arith in
    skip_from-step n message (length header) high found
    ∙ skip_label-pointer message (length header) high
        (skip_from n message (length header + (high + 1))) tag (omega (arith, size))
skip_from-IsName (suc n) whole header rest message
      (label {name = name} len bytes positive tag size named) is =
    let found : get_elem? message (length header) ≡ some len =
      rw is (get_elem?-append header len ((bytes ++ name) ++ rest)) in
    let before = header ++ (len ∷ bytes) in
    let further : length before ≡ length header + (len + 1) =
      omega (arith, length-append header (len ∷ bytes), size) in
    let split : message ≡ before ++ (name ++ rest) =
      is
      ∙ ap (λ k. header ++ (len ∷ k)) (append_assoc bytes name rest)
      ∙ sym (append_assoc header (len ∷ bytes) (name ++ rest)) in
    skip_from-step n message (length header) len found
    ∙ skip_label-label message (length header) len (skip_from n message (length header + (len + 1)))
        positive tag
    ∙ ap (skip_from n message) (sym further)
    ∙ skip_from-IsName n name before rest message named split
    ∙ ap some (omega (arith, further, length-append bytes name, size))
