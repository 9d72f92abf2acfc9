-- ===== src/Flows/Token/Laws.antt =====
-- The packing and unpacking of epoll tokens are inverse.
use yayatht.Base.{ℕ, ◌+◌, ◌*◌, ◌/◌, ◌%◌, ◌^◌, ◌≤◌, ◌<◌, bit_and, bit_or}
use yayatht.Base.{◌≡◌, refl, sym, ap, ◌∙◌, ◌↔◌, ◌⊎◌, inl, inr, Bool, true, false, not}
use yayatht.Base.{none, some, arith, ◌==◌, Option-cases}
use yayatht.Base.{IsU32}
use yayatht.Base.{bit_or_fields, bit_and_mask, bit_or_insert, bit_and_field}
use yayatht.Flows.Token.{
  FlowId, Resource, upstream_socket, tap, timer, control, dns_upstream, udp_socket, socks_control,
  socks_relay, code, bit, flow, global, resource_of, decode, decode_rest, flow_of,
}

code_below : (r : Resource) → code r < 128
code_below upstream_socket = omega arith
code_below tap = omega arith
code_below timer = omega arith
code_below control = omega arith
code_below dns_upstream = omega arith
code_below udp_socket = omega arith
code_below socks_control = omega arith
code_below socks_relay = omega arith

bit_below : (b : Bool) → bit b < 2
bit_below true = omega arith
bit_below false = omega arith

resource_of-code : (r : Resource) → resource_of (code r) ≡ some r
unfolding resource_of
resource_of-code upstream_socket = refl
resource_of-code tap = refl
resource_of-code timer = refl
resource_of-code control = refl
resource_of-code dns_upstream = refl
resource_of-code udp_socket = refl
resource_of-code socks_control = refl
resource_of-code socks_relay = refl

-- The packed fields as a sum.
packed :
    (g s c t : ℕ)
    → s < 2 ^ 20
    → c < 128
    → t < 2
    → bit_or (bit_or (bit_or (g * 2 ^ 32) s) (c * 2 ^ 20)) (t * 2 ^ 27)
      ≡ g * 2 ^ 32 + t * 2 ^ 27 + c * 2 ^ 20 + s
packed g s c t hs hc ht =
    rw (bit_or_fields 32 g s (omega arith)) (ap (λ v. bit_or v (t * 2 ^ 27)) first ∙ second)
  where
    first : bit_or (g * 2 ^ 32 + s) (c * 2 ^ 20) ≡ g * 2 ^ 5 * 2 ^ 27 + (c * 2 ^ 20 + s)
    first =
        ap (λ v. bit_or v (c * 2 ^ 20)) {y = g * 2 ^ 12 * 2 ^ 20 + s} (omega arith)
        ∙ bit_or_insert 20 12 g c s (omega arith) hs
        ∙ omega arith

    second :
        bit_or (g * 2 ^ 5 * 2 ^ 27 + (c * 2 ^ 20 + s)) (t * 2 ^ 27)
        ≡ g * 2 ^ 32 + t * 2 ^ 27 + c * 2 ^ 20 + s
    second = bit_or_insert 27 5 g t (c * 2 ^ 20 + s) (omega arith) (omega arith) ∙ omega arith

-- The fields that `decode` reads from a sum of fields.
record Fields (v g s c t : ℕ) : Type 0 where
  reserved : bit_and v 0xf000_0000 ≡ 0
  resource : bit_and (v / 2 ^ 20) 0x7f ≡ c
  slot : bit_and v 0xf_ffff % 2 ^ 32 ≡ s
  side : bit_and v (1 * 2 ^ 27) ≡ t * 2 ^ 27
  generation : v / 2 ^ 32 % 2 ^ 32 ≡ g

sum-Fields :
    (g s c t : ℕ)
    → g < 2 ^ 32
    → s < 2 ^ 20
    → c < 128
    → t < 2
    → Fields (g * 2 ^ 32 + t * 2 ^ 27 + c * 2 ^ 20 + s) g s c t
sum-Fields g s c t hg hs hc ht =
    let v = g * 2 ^ 32 + t * 2 ^ 27 + c * 2 ^ 20 + s in
    record {
      reserved = omega (arith, bit_and_field 28 4 v);
      resource = omega (arith, bit_and_mask 7 (v / 2 ^ 20));
      slot = omega (arith, bit_and_mask 20 v);
      side = omega (arith, bit_and_field 27 1 v);
      generation = omega arith;
    }

-- The only sum of fields that `decode` reads so is the word itself.
Fields-sum :
    (v g s c t : ℕ) → v < 2 ^ 64 → Fields v g s c t → v ≡ g * 2 ^ 32 + t * 2 ^ 27 + c * 2 ^ 20 + s
Fields-sum v g s c t hv f = omega (
  arith,
  f,
  bit_and_field 28 4 v,
  bit_and_mask 7 (v / 2 ^ 20),
  bit_and_mask 20 v,
  bit_and_field 27 1 v,
)

flow_raw : FlowId → Resource → Bool → ℕ
flow_raw id r side = id.generation * 2 ^ 32 + bit side * 2 ^ 27 + code r * 2 ^ 20 + id.slot

flow-eq :
    (id : FlowId) (r : Resource) (side : Bool)
    → id.slot < 2 ^ 20
    → 0 < id.generation
    → flow id r side ≡ some (flow_raw id r side)
unfolding flow flow_raw
flow-eq id r side hs hg = ground (
  arith,
  packed id.generation id.slot (code r) (bit side),
  bit_and_mask 7 (code r),
  code_below r,
  bit_below side,
)

decode-Fields :
    (v g s : ℕ) (r : Resource) (side : Bool)
    → Fields v g s (code r) (bit side)
    → decode v ≡ some (flow_of s g, r, side)
unfolding decode
decode-Fields v g s r true f = ground (arith, f, resource_of-code r)
decode-Fields v g s r false f = ground (arith, f, resource_of-code r)

flow_of-pos : (id : FlowId) → 0 < id.generation → flow_of id.slot id.generation ≡ some id
unfolding flow_of
flow_of-pos id h = ground arith

-- A flow id with a slot below 2 ^ 20 and a non-zero 32-bit generation packs, with any resource and
-- side, into a 64-bit token that decodes to the same flow id, resource and side.
pub decode-flow :
    (id : FlowId) (r : Resource) (side : Bool)
    → id.slot < 2 ^ 20
    → 0 < id.generation
    → IsU32 id.generation
    → (raw : ℕ) × (flow id r side ≡ some raw)
      × (raw < 2 ^ 64)
      × (decode raw ≡ some (some id, r, side))
unfolding flow_raw
decode-flow id r side hs hg hb = (
  flow_raw id r side,
  flow-eq id r side hs hg,
  omega (arith, code_below r, bit_below side),
  decode-Fields (flow_raw id r side) id.generation id.slot r side
        (sum-Fields id.generation id.slot (code r) (bit side) hb hs (code_below r) (bit_below side))
      ∙ ap (λ f. some (f, r, side)) (flow_of-pos id hg),
)

-- Packing fails on a slot of 2 ^ 20 or more and on generation zero, and only there.
pub flow-none_iff :
    (id : FlowId) (r : Resource) (side : Bool)
    → (flow id r side ≡ none) ↔ ((2 ^ 20 ≤ id.slot) ⊎ (id.generation ≡ 0))
unfolding flow
flow-none_iff id r side = ground arith

-- A global token decodes to its resource with no flow and no side.
pub decode-global : (r : Resource) → decode (global r) ≡ some (none, r, false)
unfolding decode global resource_of decode_rest flow_of
decode-global upstream_socket = refl
decode-global tap = refl
decode-global timer = refl
decode-global control = refl
decode-global dns_upstream = refl
decode-global udp_socket = refl
decode-global socks_control = refl
decode-global socks_relay = refl

resource_of-some : (n : ℕ) (r : Resource) → resource_of n ≡ some r → code r ≡ n
unfolding resource_of
resource_of-some n r e = ground arith

flow_of-some :
    (s g : ℕ) (id : FlowId) → flow_of s g ≡ some id → (id.slot ≡ s) × (id.generation ≡ g) × (0 < g)
unfolding flow_of
flow_of-some s g id e = ground arith

side_bit : (v : ℕ) → bit (not (bit_and v (1 * 2 ^ 27) == 0)) * 2 ^ 27 ≡ bit_and v (1 * 2 ^ 27)
side_bit v = ground (arith, bit_and_field 27 1 v)

decode-some :
    (raw : ℕ) (id : FlowId) (r : Resource) (side : Bool)
    → decode raw ≡ some (some id, r, side)
    → Fields raw id.generation id.slot (code r) (bit side) × (0 < id.generation)
unfolding decode
decode-some raw id r side e = elim (Option-cases (resource_of (bit_and (raw / 2 ^ 20) 0x7f))) [
  | inl missing ↦ absurd (ground (arith, missing))
  | inr (q, found) ↦ ground (
    arith,
    found,
    resource_of-some (bit_and (raw / 2 ^ 20) 0x7f) q,
    flow_of-some (bit_and raw 0xf_ffff % 2 ^ 32) (raw / 2 ^ 32 % 2 ^ 32) id,
    side_bit raw,
  )
]

-- A 64-bit token that decodes to a flow id is the one token that packs it: no two tokens decode to one
-- flow id, resource and side.
pub flow-decode :
    (raw : ℕ) (id : FlowId) (r : Resource) (side : Bool)
    → raw < 2 ^ 64
    → decode raw ≡ some (some id, r, side)
    → flow id r side ≡ some raw
unfolding flow_raw
flow-decode raw id r side hr e =
    let (f, pos) = decode-some raw id r side e in
    flow-eq id r side (omega (arith, f.slot, bit_and_mask 20 raw)) pos
    ∙ ap some (sym (Fields-sum raw id.generation id.slot (code r) (bit side) hr f))
