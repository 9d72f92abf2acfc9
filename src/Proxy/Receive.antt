-- ===== src/Proxy/Receive.antt =====
-- The input side of `Handshake` in crates/proxy-proto/src/lib.rs: `receive` and what it calls.
pub mod Inv
pub mod Progress
pub mod Output
use yayatht.Base.{ℕ, zero, suc, ◌+◌, ◌-◌, ◌*◌, ◌/◌, ◌%◌, ◌^◌, ◌≤◌, ◌<◌, min, max, bit_and, bit_or}
use yayatht.Base.{
  ◌≡◌, refl, sym, ap, subst, ◌∙◌, ◌≢◌, ◌↔◌, ◌⊎◌, inl, inr, Bool, true, false, not, ◌&&◌, ◌||◌,
}
use yayatht.Base.{
  Option, none, some, List, [], ◌∷◌, ◌++◌, map, arith, ltb, leb, ◌==◌, if◌then◌else◌, ==_iff,
  Bool-cases, Option-cases, is_some,
}
use yayatht.Base.{
  length, get_elem?, get_or, set, take, drop, replicate, slice, splice, All, length-append,
  length-set, get_elem?-set_self, get_elem?-set_ne, get_elem?-lt, length-take, length-drop,
  length-replicate, length-splice, splice-nil, splice-splice, splice-zero, take-append, drop-append,
  take_all, drop-drop, splice_over, take-append_more,
}
use yayatht.Base.{
  u8_max, u16_max, u32_max, u64_max, IsU8, IsU16, IsU32, u8, u16, u32, u64, add32, sub32, ◌<<<◌,
  ◌>>>◌, be16, bytes16, be32, bytes32, be16-bytes16, be32-bytes32,
}
use yayatht.Base.{
  zero-bit_or, bit_or-zero, bit_and-zero, bit_or_cut, bit_and_cut, bit_or_fields, bit_and_mask,
  bit_or_insert, bit_and_field,
}
use yayatht.Net.{SocketAddr, v4, v6}
use yayatht.Proxy.Address.{SocksAddress, socket, domain}
use yayatht.Proxy.Handshake.{
  max_http_header, Credentials, Command, connect, udp_associate, Part, method_version,
  authentication_version, command_header, address_type, bound, status_line, status_encoding,
  http_version, http_status, Error, invalid_state, invalid_response, unsupported_socks_method,
  socks_authentication_required, socks_authentication_failed, socks_command_failed,
  http_header_too_large, http_connect_failed, Result, ok, err, State, socks_greeting_write,
  socks_method_read, socks_auth_write, socks_auth_read, socks_command_write, socks_command_read,
  http_write, http_read, complete, Text, Handshake, Done, done, socks_auth_request,
  socks_command_request, http10_text, http11_text, crlf, set_output,
}

unfoldable pub authenticate : Handshake → Option Credentials → Result ℕ × Handshake
unfolding socks_auth_request
authenticate h none = (err socks_authentication_required, h)
authenticate h (some c) =
    (ok 2, record (set_output h (socks_auth_request c)) { state = socks_auth_write })

unfoldable pub receive_socks_method : Handshake → List ℕ → Result ℕ × Handshake
unfolding socks_command_request authenticate
receive_socks_method h input =
    let method = get_or input 1 0 in
    let request = socks_command_request h.command h.target in
    if ltb (length input) 2
    then (ok 0, h)
    else if not (get_or input 0 0 == 5)
    then (err (invalid_response method_version), h)
    else if method == 0
    then (ok 2, record (set_output h request) { state = socks_command_write })
    else if method == 2
    then authenticate h h.credentials
    else (err (unsupported_socks_method method), h)

unfoldable pub receive_socks_auth : Handshake → List ℕ → Result ℕ × Handshake
unfolding socks_command_request
receive_socks_auth h input =
    let request = socks_command_request h.command h.target in
    if ltb (length input) 2
    then (ok 0, h)
    else if not (get_or input 0 0 == 1)
    then (err (invalid_response authentication_version), h)
    else if not (get_or input 1 0 == 0)
    then (err socks_authentication_failed, h)
    else (ok 2, record (set_output h request) { state = socks_command_write })

unfoldable pub parse_socks_address : List ℕ → Option SocksAddress
parse_socks_address input =
    let kind = get_or input 0 0 in
    let name_len = get_or input 1 0 in
    let end = 2 + name_len in
    if length input == 0
    then none
    else if kind == 1 && length input == 7
    then some (socket (v4 (slice input 1 5) (be16 (get_or input 5 0) (get_or input 6 0))))
    else if kind == 4 && length input == 19
    then some (socket (v6 (slice input 1 17) (be16 (get_or input 17 0) (get_or input 18 0))))
    else if kind == 3 && leb 4 (length input) && length input == name_len + 4
    then some (domain (slice input 2 end) (be16 (get_or input end 0) (get_or input (end + 1) 0)))
    else none

unfoldable pub bind : Handshake → ℕ → Option SocksAddress → Result ℕ × Handshake
bind h len none = (err (invalid_response bound), h)
bind h len (some address) =
    (ok len, record h { bound_address = some address; state = complete; credentials = none })

-- The rest of `receive_socks_command`, once the reply's length is known.
unfoldable pub receive_reply : Handshake → List ℕ → ℕ → Result ℕ × Handshake
unfolding bind parse_socks_address
receive_reply h input len =
    if ltb (length input) len
    then (ok 0, h)
    else if not (get_or input 1 0 == 0)
    then (err (socks_command_failed (get_or input 1 0)), h)
    else bind h len (parse_socks_address (slice input 3 len))

unfoldable pub receive_socks_command : Handshake → List ℕ → Result ℕ × Handshake
unfolding receive_reply
receive_socks_command h input =
    let kind = get_or input 3 0 in
    if ltb (length input) 4
    then (ok 0, h)
    else if not (get_or input 0 0 == 5) || not (get_or input 2 0 == 0)
    then (err (invalid_response command_header), h)
    else if kind == 1
    then receive_reply h input 10
    else if kind == 4
    then receive_reply h input 22
    else if kind == 3 && ltb (length input) 5
    then (ok 0, h)
    else if kind == 3
    then receive_reply h input (7 + get_or input 4 0)
    else (err (invalid_response address_type), h)

unfoldable pub starts_with : List ℕ → List ℕ → Bool
starts_with [] bytes = true
starts_with (p ∷ pattern_rest) [] = false
starts_with (p ∷ pattern_rest) (b ∷ bytes) = p == b && starts_with pattern_rest bytes

abbrev pub next_index : Option ℕ → Option ℕ
next_index none = none
next_index (some i) = some (suc i)

-- `windows(n).position(…)` for a text of n bytes.
unfoldable pub position : List ℕ → List ℕ → Option ℕ
unfolding starts_with
position text [] = none
position text (b ∷ bytes) =
    let later = position text bytes in
    if starts_with text (b ∷ bytes) then some 0 else next_index later

unfoldable pub same_text : List ℕ → List ℕ → Bool
unfolding starts_with
same_text a b = length a == length b && starts_with a b

unfoldable pub check_status : Option ℕ → Result Done
check_status none = err (invalid_response http_status)
check_status (some status) =
    if leb 200 status && ltb status 300 then ok done else err (http_connect_failed status)

-- The fields of the status line.
unfoldable pub check_fields : Text → List (List ℕ) → Result Done
unfolding check_status same_text
check_fields text [] = err (invalid_response http_version)
check_fields text (version ∷ rest) =
    if same_text version http10_text || same_text version http11_text
    then check_second rest
    else err (invalid_response http_version)
  where
    check_second : List (List ℕ) → Result Done
    check_second [] = err (invalid_response http_status)
    check_second (status ∷ more) = check_status (text.parse_u16 status)

unfoldable pub check_line : Text → List ℕ → Option ℕ → Result Done
unfolding check_fields
check_line text input none = err (invalid_response status_line)
check_line text input (some line_end) =
    let line = take line_end input in
    if text.is_utf8 line
    then check_fields text (text.fields line)
    else err (invalid_response status_encoding)

unfoldable pub finish_http : Handshake → ℕ → Result Done → Result ℕ × Handshake
finish_http h end (err e) = (err e, h)
finish_http h end (ok checked) = (ok end, record h { state = complete; credentials = none })

unfoldable pub receive_http_end : Text → Handshake → List ℕ → Option ℕ → Result ℕ × Handshake
unfolding finish_http check_line position
receive_http_end text h input none =
    if leb max_http_header (length input) then (err http_header_too_large, h) else (ok 0, h)
receive_http_end text h input (some index) =
    let end = index + 4 in
    if ltb max_http_header end
    then (err http_header_too_large, h)
    else finish_http h end (check_line text input (position crlf (take end input)))

unfoldable pub receive_http : Text → Handshake → List ℕ → Result ℕ × Handshake
unfolding receive_http_end position
receive_http text h input = receive_http_end text h input (position (crlf ++ crlf) input)

-- `receive` on the state it is in.
unfoldable pub receive_in : Text → State → Handshake → List ℕ → Result ℕ × Handshake
unfolding receive_socks_method receive_socks_auth receive_socks_command receive_http
receive_in text socks_method_read h input = receive_socks_method h input
receive_in text socks_auth_read h input = receive_socks_auth h input
receive_in text socks_command_read h input = receive_socks_command h input
receive_in text http_read h input = receive_http text h input
receive_in text socks_greeting_write h input = (err invalid_state, h)
receive_in text socks_auth_write h input = (err invalid_state, h)
receive_in text socks_command_write h input = (err invalid_state, h)
receive_in text http_write h input = (err invalid_state, h)
receive_in text complete h input = (err invalid_state, h)

unfoldable pub receive : Text → Handshake → List ℕ → Result ℕ × Handshake
unfolding receive_in
receive text h input = receive_in text h.state h input
