-- ===== src/Proxy/Handshake.antt =====
-- `Handshake` of crates/proxy-proto/src/lib.rs. A method that takes `&mut self` returns its result
-- beside the new state, which an error leaves as the code does. The text functions of the standard
-- library and the Base64 crate are the record `Text`. Clearing the bytes of secrets is not read.
use yayatht.Base.{ℕ, ◌+◌, ◌*◌}
use yayatht.Base.{Bool, true, false, not, ◌||◌}
use yayatht.Base.{Option, none, some, List, [], ◌∷◌, ◌++◌, ltb, ◌==◌, if◌then◌else◌, is_some}
use yayatht.Base.{length, drop}
use yayatht.Base.{u8_max, u8, bytes16}
use yayatht.Net.{SocketAddr, v4, v6}
use yayatht.Proxy.Address.{SocksAddress}

abbrev max_credential_component : ℕ
max_credential_component = u8_max

abbrev pub max_http_header : ℕ
max_http_header = 8 * 1024

pub record Credentials : Type 0 where
  pub username : List ℕ
  pub password : List ℕ

pub data Protocol : Type 0 where
  socks5 http_connect : Protocol

pub data Command : Type 0 where
  connect udp_associate : Command

unfoldable pub socks_code : Command → ℕ
socks_code connect = 1
socks_code udp_associate = 3

-- The texts of `InvalidResponse`.
pub data Part : Type 0 where
  method_version authentication_version command_header address_type bound status_line : Part
  status_encoding http_version http_status : Part

pub data Error : Type 0 where
  invalid_credentials invalid_state : Error
  invalid_response : Part → Error
  unsupported_command : Error
  unsupported_socks_method : ℕ → Error
  socks_authentication_required socks_authentication_failed : Error
  socks_command_failed : ℕ → Error
  http_header_too_large : Error
  http_connect_failed : ℕ → Error

pub data Result {ℓ} (A : Type ℓ) : Type ℓ where
  ok : A → Result A
  err : Error → Result A

pub data State : Type 0 where
  socks_greeting_write socks_method_read socks_auth_write socks_auth_read : State
  socks_command_write socks_command_read http_write http_read complete : State

-- `SocketAddr::to_string` with the brackets of `format!`, the Base64 encoder, `str::from_utf8`,
-- `split_ascii_whitespace` and `parse::<u16>`.
pub record Text : Type 0 where
  pub authority : SocketAddr → List ℕ
  pub base64 : List ℕ → List ℕ
  pub is_utf8 : List ℕ → Bool
  pub fields : List ℕ → List (List ℕ)
  pub parse_u16 : List ℕ → Option ℕ

pub record Handshake : Type 0 where
  pub state : State
  pub command : Command
  pub target : SocketAddr
  pub credentials : Option Credentials
  pub output : List ℕ
  pub output_offset : ℕ
  pub bound_address : Option SocksAddress

pub data Done : Type 0 where
  done : Done

unfoldable pub new_credentials : List ℕ → List ℕ → Result Credentials
new_credentials username password =
    if length username == 0
      || length password == 0
      || ltb max_credential_component (length username)
      || ltb max_credential_component (length password)
    then err invalid_credentials
    else ok (record { username = username; password = password })

unfoldable pub socks_greeting : Bool → List ℕ
socks_greeting true = 5 ∷ 2 ∷ 0 ∷ 2 ∷ []
socks_greeting false = 5 ∷ 1 ∷ 0 ∷ []

unfoldable pub socks_auth_request : Credentials → List ℕ
socks_auth_request c =
    1 ∷ u8 (length c.username) ∷ (c.username ++ u8 (length c.password) ∷ c.password)

unfoldable pub socks_command_request : Command → SocketAddr → List ℕ
unfolding socks_code
socks_command_request command (v4 octets port) =
    5 ∷ socks_code command ∷ 0 ∷ 1 ∷ (octets ++ bytes16 port)
socks_command_request command (v6 octets port) =
    5 ∷ socks_code command ∷ 0 ∷ 4 ∷ (octets ++ bytes16 port)

abbrev connect_text : List ℕ
connect_text = 67 ∷ 79 ∷ 78 ∷ 78 ∷ 69 ∷ 67 ∷ 84 ∷ 32 ∷ []

abbrev version_host_text : List ℕ
version_host_text =
    32 ∷ 72 ∷ 84 ∷ 84 ∷ 80 ∷ 47 ∷ 49 ∷ 46 ∷ 49 ∷ 13 ∷ 10 ∷ 72 ∷ 111 ∷ 115 ∷ 116 ∷ 58 ∷ 32 ∷ []

abbrev authorization_text : List ℕ
authorization_text =
    80 ∷ 114 ∷ 111 ∷ 120 ∷ 121 ∷ 45 ∷ 65 ∷ 117 ∷ 116 ∷ 104 ∷ 111 ∷ 114 ∷ 105 ∷ 122 ∷ 97 ∷ 116 ∷ 105
    ∷ 111 ∷ 110 ∷ 58 ∷ 32 ∷ 66 ∷ 97 ∷ 115 ∷ 105 ∷ 99 ∷ 32 ∷ []

abbrev pub http10_text : List ℕ
http10_text = 72 ∷ 84 ∷ 84 ∷ 80 ∷ 47 ∷ 49 ∷ 46 ∷ 48 ∷ []

abbrev pub http11_text : List ℕ
http11_text = 72 ∷ 84 ∷ 84 ∷ 80 ∷ 47 ∷ 49 ∷ 46 ∷ 49 ∷ []

abbrev pub crlf : List ℕ
crlf = 13 ∷ 10 ∷ []

unfoldable authorization : Text → Option Credentials → List ℕ
authorization text none = []
authorization text (some c) =
    authorization_text ++ (text.base64 (c.username ++ 58 ∷ c.password) ++ crlf)

unfoldable pub http_connect_request : Text → SocketAddr → Option Credentials → List ℕ
unfolding authorization
http_connect_request text target credentials =
    let authority = text.authority target in
    connect_text
    ++ (authority
        ++ (version_host_text ++ (authority ++ (crlf ++ (authorization text credentials ++ crlf)))))

abbrev pub started : State → Command → SocketAddr → Option Credentials → List ℕ → Handshake
started state command target credentials output = record {
  state = state;
  command = command;
  target = target;
  credentials = credentials;
  output = output;
  output_offset = 0;
  bound_address = none;
}

unfoldable pub new_handshake :
    Text → Protocol → Command → SocketAddr → Option Credentials → Result Handshake
unfolding socks_greeting http_connect_request
new_handshake text socks5 command target credentials =
    ok (
      started socks_greeting_write command target credentials
        (socks_greeting (is_some credentials)))
new_handshake text http_connect connect target credentials =
    ok
      (started http_write connect target credentials (http_connect_request text target credentials))
new_handshake text http_connect udp_associate target credentials = err unsupported_command

-- `output()`: what is still to be written.
abbrev pub pending : Handshake → List ℕ
pending h = drop h.output_offset h.output

unfoldable pub wants_input : State → Bool
wants_input socks_method_read = true
wants_input socks_auth_read = true
wants_input socks_command_read = true
wants_input http_read = true
wants_input socks_greeting_write = false
wants_input socks_auth_write = false
wants_input socks_command_write = false
wants_input http_write = false
wants_input complete = false

abbrev pub set_output : Handshake → List ℕ → Handshake
set_output h out = record h { output = out; output_offset = 0 }

abbrev pub clear_output : Handshake → Handshake
clear_output h = record h { output = []; output_offset = 0 }

-- The state after the last byte of an output.
unfoldable pub after_write : State → Option State
after_write socks_greeting_write = some socks_method_read
after_write socks_auth_write = some socks_auth_read
after_write socks_command_write = some socks_command_read
after_write http_write = some http_read
after_write socks_method_read = none
after_write socks_auth_read = none
after_write socks_command_read = none
after_write http_read = none
after_write complete = none

unfoldable pub enter : Handshake → Option State → Result Done × Handshake
enter h none = (err invalid_state, h)
enter h (some state) = (ok done, record h { state = state })

unfoldable pub advance_output : Handshake → ℕ → Result Done × Handshake
unfolding enter after_write
advance_output h len =
    let moved = record h { output_offset = h.output_offset + len } in
    if ltb (length (pending h)) len || length (pending h) == 0
    then (err invalid_state, h)
    else if not (moved.output_offset == length h.output)
    then (ok done, moved)
    else enter (clear_output moved) (after_write h.state)
