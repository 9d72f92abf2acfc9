-- ===== src/Proxy/Receive/Inv.antt =====
-- What a call of `receive` may do: it consumes bytes of the input and moves on, or it asks for more
-- input, or it fails; in the latter two it changes nothing.
use yayatht.Base.{ℕ, ◌+◌, ◌≤◌, ◌<◌}
use yayatht.Base.{◌≡◌, refl, ◌⊎◌, inl, inr, Bool, true, false, not, ◌&&◌, ◌||◌}
use yayatht.Base.{Option, none, some, List, arith, ltb, ◌==◌, is_some, if-cases}
use yayatht.Base.{length, get_or, slice}
use yayatht.Net.{SocketAddr, v4, v6}
use yayatht.Proxy.Address.{SocksAddress}
use yayatht.Proxy.Handshake.{
  Credentials, Result, ok, err, State, socks_greeting_write, socks_method_read, socks_auth_write,
  socks_auth_read, socks_command_write, socks_command_read, http_write, http_read, complete,
  Handshake, socks_auth_request, socks_command_request, Command, after_write,
}
use yayatht.Proxy.Receive.{
  authenticate, receive_socks_method, receive_socks_auth, bind, parse_socks_address, receive_reply,
  receive_socks_command,
}

-- The order in which a handshake passes its states.
unfoldable pub rank : State → ℕ
rank socks_greeting_write = 0
rank socks_method_read = 1
rank socks_auth_write = 2
rank socks_auth_read = 3
rank socks_command_write = 4
rank http_write = 4
rank socks_command_read = 5
rank http_read = 5
rank complete = 6

abbrev pub is_complete : State → Bool
is_complete s = rank s == 6

-- A state that writes has bytes to write, any other has none, and a completed handshake holds no
-- credentials.
pub record Inv (h : Handshake) : Type 0 where
  pub writing : is_some (after_write h.state) ≡ true → h.output_offset < length h.output
  pub reading :
      is_some (after_write h.state) ≡ false → (length h.output ≡ 0) × (h.output_offset ≡ 0)
  pub forgotten : is_complete h.state ≡ true → h.credentials ≡ none

-- The three outcomes of `receive`.
unfoldable pub Outcome : Handshake → List ℕ → Result ℕ × Handshake → Type 0
Outcome h input (err e, g) = g ≡ h
Outcome h input (ok n, g) =
    ((n ≡ 0) × (g ≡ h)) ⊎ (Inv g × (0 < n) × (n ≤ length input) × (rank h.state < rank g.state))

-- A handler that puts a request out and goes on to write it.
sending :
    (h : Handshake) (input : List ℕ) (s : State) (out : List ℕ)
    → is_some (after_write s) ≡ true
    → is_complete s ≡ false
    → 0 < length out
    → 2 ≤ length input
    → rank h.state < rank s
    → Outcome h input (ok 2, record h { output = out; output_offset = 0; state = s })
unfolding Outcome
sending h input s out w f pos len r =
    inr (record { writing = λ e. pos; reading = λ e. cc; forgotten = λ e. cc }, omega arith, len, r)

-- A handler that completes the handshake.
pub completing :
    (h : Handshake) (input : List ℕ) (n : ℕ) (b : Option SocksAddress)
    → Inv h
    → is_some (after_write h.state) ≡ false
    → rank h.state < 6
    → 0 < n
    → n ≤ length input
    → Outcome h input (ok n, record h { bound_address = b; state = complete; credentials = none })
unfolding Outcome after_write rank
completing h input n b v w r pos len = inr (
  record { writing = λ e. absurd cc; reading = λ e. v.reading w; forgotten = λ e. refl },
  pos,
  len,
  r,
)

authenticate-Outcome :
    (h : Handshake) (input : List ℕ) (c : Option Credentials)
    → h.state ≡ socks_method_read
    → 2 ≤ length input
    → Outcome h input (authenticate h c)
unfolding authenticate rank after_write socks_auth_request Outcome
authenticate-Outcome h input none e len = refl
authenticate-Outcome h input (some c) e len =
    sending h input socks_auth_write (socks_auth_request c) refl refl (omega arith) len
      (rw e (omega arith))

request_pos : (c : Command) (target : SocketAddr) → 0 < length (socks_command_request c target)
unfolding socks_command_request
request_pos c (v4 octets port) = omega arith
request_pos c (v6 octets port) = omega arith

pub receive_socks_method-Outcome :
    (h : Handshake) (input : List ℕ)
    → h.state ≡ socks_method_read
    → Outcome h input (receive_socks_method h input)
unfolding receive_socks_method Outcome rank after_write
receive_socks_method-Outcome h input e =
    let P = Outcome h input in
    if-cases P (ltb (length input) 2) (λ t. inl (refl, refl))
      (λ long.
        if-cases P (not (get_or input 0 0 == 5)) (λ t. refl)
          (λ t.
            if-cases P (get_or input 1 0 == 0)
              (λ t.
                sending h input socks_command_write (socks_command_request h.command h.target) refl
                  refl (request_pos h.command h.target) (ground arith) (rw e (omega arith)))
              (λ t.
                if-cases P (get_or input 1 0 == 2)
                  (λ t. authenticate-Outcome h input h.credentials e (ground arith)) (λ t. refl))))

pub receive_socks_auth-Outcome :
    (h : Handshake) (input : List ℕ)
    → h.state ≡ socks_auth_read
    → Outcome h input (receive_socks_auth h input)
unfolding receive_socks_auth Outcome rank after_write
receive_socks_auth-Outcome h input e =
    let P = Outcome h input in
    if-cases P (ltb (length input) 2) (λ t. inl (refl, refl))
      (λ long.
        if-cases P (not (get_or input 0 0 == 1)) (λ t. refl)
          (λ t.
            if-cases P (not (get_or input 1 0 == 0)) (λ t. refl)
              (λ t.
                sending h input socks_command_write (socks_command_request h.command h.target) refl
                  refl (request_pos h.command h.target) (ground arith) (rw e (omega arith)))))

bind-Outcome :
    (h : Handshake) (input : List ℕ) (n : ℕ) (a : Option SocksAddress)
    → Inv h
    → h.state ≡ socks_command_read
    → 0 < n
    → n ≤ length input
    → Outcome h input (bind h n a)
unfolding bind Outcome rank after_write
bind-Outcome h input n none v e pos len = refl
bind-Outcome h input n (some a) v e pos len =
    completing h input n (some a) v (rw e refl) (rw e (omega arith)) pos len

receive_reply-Outcome :
    (h : Handshake) (input : List ℕ) (n : ℕ)
    → Inv h
    → h.state ≡ socks_command_read
    → 0 < n
    → Outcome h input (receive_reply h input n)
unfolding receive_reply Outcome
receive_reply-Outcome h input n v e pos =
    let P = Outcome h input in
    if-cases P (ltb (length input) n) (λ t. inl (refl, refl))
      (λ long.
        if-cases P (not (get_or input 1 0 == 0)) (λ t. refl)
          (λ t.
            bind-Outcome h input n (parse_socks_address (slice input 3 n)) v e pos (ground arith)))

pub receive_socks_command-Outcome :
    (h : Handshake) (input : List ℕ)
    → Inv h
    → h.state ≡ socks_command_read
    → Outcome h input (receive_socks_command h input)
unfolding receive_socks_command Outcome
receive_socks_command-Outcome h input v e =
    let P = Outcome h input in
    let kind = get_or input 3 0 in
    if-cases P (ltb (length input) 4) (λ t. inl (refl, refl))
      (λ long.
        if-cases P (not (get_or input 0 0 == 5) || not (get_or input 2 0 == 0)) (λ t. refl)
          (λ t.
            if-cases P (kind == 1) (λ t. receive_reply-Outcome h input 10 v e (omega arith))
              (λ t.
                if-cases P (kind == 4) (λ t. receive_reply-Outcome h input 22 v e (omega arith))
                  (λ t.
                    if-cases P (kind == 3 && ltb (length input) 5) (λ t. inl (refl, refl))
                      (λ t.
                        if-cases P (kind == 3)
                          (λ t.
                            receive_reply-Outcome h input (7 + get_or input 4 0) v e (omega arith))
                          (λ t. refl))))))
