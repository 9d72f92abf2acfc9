-- ===== src/Dns/Message.antt =====
-- The message functions of crates/dataplane/src/dns.rs. `checked_add` on `usize` is not exceeded by
-- an offset into a message.
pub mod Bounds
pub mod Names
pub mod Grammar
use yayatht.Base.{ℕ, zero, suc, ◌+◌, ◌-◌, min, max, bit_and, bit_or}
use yayatht.Base.{Bool, true, false, not, ◌&&◌, ◌||◌}
use yayatht.Base.{Option, none, some, List, [], ◌∷◌, ◌++◌, map, ltb, leb, ◌==◌, if◌then◌else◌}
use yayatht.Base.{length, get_elem?, take, drop, replicate, slice, byte_at, word16}
use yayatht.Base.{bytes16}

abbrev pub header_len : ℕ
header_len = 12

abbrev pub flag_response : ℕ
flag_response = 0x8000

abbrev pub flag_truncated : ℕ
flag_truncated = 0x0200

abbrev pub flag_recursion_desired : ℕ
flag_recursion_desired = 0x0100

abbrev pub flag_recursion_available : ℕ
flag_recursion_available = 0x0080

abbrev pub rcode_formerr : ℕ
rcode_formerr = 1

abbrev pub rcode_servfail : ℕ
rcode_servfail = 2

abbrev opt_record_type : ℕ
opt_record_type = 41

abbrev pub default_udp_payload_limit : ℕ
default_udp_payload_limit = 512

unfoldable pub synthesize_failure : ℕ → ℕ → List ℕ → ℕ → List ℕ
synthesize_failure id query_flags question rcode =
    let flags =
      bit_or
        (bit_or (bit_or flag_response (bit_and query_flags flag_recursion_desired))
          flag_recursion_available)
        (bit_and rcode 0x000f) in
    bytes16 id
    ++ (bytes16 flags
        ++ (bytes16 (if length question == 0 then 0 else 1) ++ (replicate 6 0 ++ question)))

-- The match on the length byte at `offset`; `rest` is the next round of the loop.
unfoldable pub skip_label : List ℕ → ℕ → Option ℕ → Option ℕ → Option ℕ
skip_label message offset none rest = none
skip_label message offset (some len) rest =
    if len == 0
    then some (offset + 1)
    else if bit_and len 0xc0 == 0xc0
    then (if leb (offset + 2) (length message) then some (offset + 2) else none)
    else if not (bit_and len 0xc0 == 0)
    then none
    else rest

-- The loop of `skip_name`, with the rounds left.
unfoldable pub skip_from : ℕ → List ℕ → ℕ → Option ℕ
unfolding skip_label
skip_from zero message offset = none
skip_from (suc rounds) message offset =
    let rest = skip_from rounds message (offset + (byte_at message offset + 1)) in
    skip_label message offset (get_elem? message offset) rest

unfoldable pub skip_name : List ℕ → ℕ → Option ℕ
unfolding skip_from
skip_name message offset = skip_from 128 message offset

unfoldable pub question_to : List ℕ → Option ℕ → Option (List ℕ)
question_to message none = none
question_to message (some name_end) =
    if ltb (length message) (name_end + 4)
    then none
    else some (slice message header_len (name_end + 4))

unfoldable pub question_section : List ℕ → Option (List ℕ)
unfolding skip_name question_to
question_section message =
    if not (word16 message 4 == 1) then none else question_to message (skip_name message header_len)

-- `u8::to_ascii_lowercase`.
unfoldable pub lowercase : ℕ → ℕ
lowercase byte = if leb b'A' byte && leb byte b'Z' then byte + 32 else byte

unfoldable pub same_bytes : List ℕ → List ℕ → Bool
same_bytes [] [] = true
same_bytes [] (b ∷ bs) = false
same_bytes (a ∷ as') [] = false
same_bytes (a ∷ as') (b ∷ bs) = a == b && same_bytes as' bs

unfoldable pub eq_ignore_ascii_case : List ℕ → List ℕ → Bool
unfolding same_bytes lowercase
eq_ignore_ascii_case xs ys = same_bytes (map lowercase xs) (map lowercase ys)

unfoldable pub question_matches : List ℕ → List ℕ → Bool
unfolding same_bytes eq_ignore_ascii_case
question_matches stored received =
    let name_len = length stored - 4 in
    if not (length stored == length received) || ltb (length stored) 4
    then false
    else same_bytes (drop name_len stored) (drop name_len received)
      && eq_ignore_ascii_case (take name_len stored) (take name_len received)

-- One round of the walk over the records, from the end of the record's name.
unfoldable pub edns_record : List ℕ → Option ℕ → (ℕ → ℕ) → ℕ
edns_record message none rest = default_udp_payload_limit
edns_record message (some name_end) rest =
    let fixed_end = name_end + 10 in
    let following = fixed_end + word16 message (fixed_end - 2) in
    if ltb (length message) fixed_end
    then default_udp_payload_limit
    else if word16 message name_end == opt_record_type
    then max (word16 message (name_end + 2)) default_udp_payload_limit
    else if ltb (length message) following
    then default_udp_payload_limit
    else rest following

unfoldable pub edns_from : ℕ → List ℕ → ℕ → ℕ
unfolding edns_record skip_name
edns_from zero message offset = default_udp_payload_limit
edns_from (suc rounds) message offset =
    edns_record message (skip_name message offset) (edns_from rounds message)

unfoldable pub edns_payload_limit : List ℕ → ℕ → ℕ
unfolding edns_from
edns_payload_limit message offset =
    let records = word16 message 6 + word16 message 8 + word16 message 10 in
    edns_from (min records 32) message offset
