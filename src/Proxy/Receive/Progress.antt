-- ===== src/Proxy/Receive/Progress.antt =====
-- Whole runs of a handshake: the HTTP reply, `receive`, `advance_output`, and any sequence of calls.
use yayatht.Base.{ℕ, suc, ◌+◌, ◌≤◌, ◌<◌}
use yayatht.Base.{◌≡◌, refl, inl, true}
use yayatht.Base.{Option, none, some, List, [], ◌∷◌, ◌++◌, arith, ltb, leb, if-cases}
use yayatht.Base.{length, take}
use yayatht.Proxy.Handshake.{
  Result, ok, err, State, socks_greeting_write, socks_method_read, socks_auth_write,
  socks_auth_read, socks_command_write, socks_command_read, http_write, http_read, complete, Text,
  Handshake, Done, after_write, max_http_header, crlf,
}
use yayatht.Proxy.Receive.{
  starts_with, next_index, position, finish_http, receive_http_end, receive_http, receive_in,
  receive, check_line,
}
use yayatht.Proxy.Receive.Inv.{
  rank, Inv, Outcome, completing, receive_socks_method-Outcome, receive_socks_auth-Outcome,
  receive_socks_command-Outcome,
}

starts_with-le : (text bytes : List ℕ) → starts_with text bytes ≡ true → length text ≤ length bytes
unfolding starts_with
starts_with-le [] bytes e = omega arith
starts_with-le (t ∷ text) [] e = cc
starts_with-le (t ∷ text) (b ∷ bytes) e = ground (arith, starts_with-le text bytes)

-- An index at which a text of n bytes lies inside m bytes.
abbrev Within : ℕ → ℕ → Option ℕ → Type 0
Within n m none = Unit
Within n m (some i) = i + n ≤ m

next_index-Within : (n m : ℕ) (o : Option ℕ) → Within n m o → Within n (suc m) (next_index o)
next_index-Within n m none h = h
next_index-Within n m (some i) h = omega arith

-- A text that is found lies inside the bytes.
position-Within : (text bytes : List ℕ) → Within (length text) (length bytes) (position text bytes)
unfolding position
position-Within text [] = _
position-Within text (b ∷ bytes) =
    if-cases (Within (length text) (length (b ∷ bytes))) (starts_with text (b ∷ bytes))
      (λ t. omega (arith, starts_with-le text (b ∷ bytes) t))
      (λ t.
        next_index-Within (length text) (length bytes) (position text bytes)
          (position-Within text bytes))

finish_http-Outcome :
    (h : Handshake) (input : List ℕ) (n : ℕ) (r : Result Done)
    → Inv h
    → h.state ≡ http_read
    → 0 < n
    → n ≤ length input
    → Outcome h input (finish_http h n r)
unfolding finish_http Outcome after_write rank
finish_http-Outcome h input n (err e) v s pos len = refl
finish_http-Outcome h input n (ok d) v s pos len =
    completing h input n h.bound_address v (rw s refl) (rw s (omega arith)) pos len

receive_http_end-Outcome :
    (text : Text) (h : Handshake) (input : List ℕ) (o : Option ℕ)
    → Inv h
    → h.state ≡ http_read
    → Within 4 (length input) o
    → Outcome h input (receive_http_end text h input o)
unfolding receive_http_end Outcome
receive_http_end-Outcome text h input none v s w =
    if-cases (Outcome h input) (leb max_http_header (length input)) (λ t. refl)
      (λ t. inl (refl, refl))
receive_http_end-Outcome text h input (some i) v s w =
    if-cases (Outcome h input) (ltb max_http_header (i + 4)) (λ t. refl)
      (λ t.
        finish_http-Outcome h input (i + 4)
          (check_line text input (position crlf (take (i + 4) input))) v s (omega arith) w)

receive_in-Outcome :
    (text : Text) (s : State) (h : Handshake) (input : List ℕ)
    → Inv h
    → h.state ≡ s
    → Outcome h input (receive_in text s h input)
unfolding receive_in receive_http Outcome
receive_in-Outcome text socks_method_read h input v e = receive_socks_method-Outcome h input e
receive_in-Outcome text socks_auth_read h input v e = receive_socks_auth-Outcome h input e
receive_in-Outcome text socks_command_read h input v e = receive_socks_command-Outcome h input v e
receive_in-Outcome text http_read h input v e =
    receive_http_end-Outcome text h input (position (crlf ++ crlf) input) v e
      (position-Within (crlf ++ crlf) input)
receive_in-Outcome text socks_greeting_write h input v e = refl
receive_in-Outcome text socks_auth_write h input v e = refl
receive_in-Outcome text socks_command_write h input v e = refl
receive_in-Outcome text http_write h input v e = refl
receive_in-Outcome text complete h input v e = refl

-- On a handshake that satisfies the invariant a call of `receive` has one of three outcomes: it fails
-- and changes nothing; it returns 0 and changes nothing; or it returns a number of bytes, at least one
-- and no more than the input has, and the handshake moves to a later state, where the invariant holds.
pub receive-Outcome :
    (text : Text) (h : Handshake) (input : List ℕ) → Inv h → Outcome h input (receive text h input)
unfolding receive
receive-Outcome text h input v = receive_in-Outcome text h.state h input v refl
