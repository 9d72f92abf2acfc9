-- ===== src/Proxy/Receive/Output.antt =====
-- The start of a handshake and its output side, and that every sequence of calls keeps the invariant.
use yayatht.Base.{ℕ, ◌+◌, ◌<◌}
use yayatht.Base.{◌≡◌, refl, subst, ◌⊎◌, Bool, true, false, not, ◌||◌}
use yayatht.Base.{Option, [], arith, ltb, ◌==◌, if◌then◌else◌, is_some, if-cases}
use yayatht.Base.{length, drop, length-drop}
use yayatht.Net.{SocketAddr}
use yayatht.Proxy.Handshake.{
  Credentials, Result, ok, err, State, socks_greeting_write, socks_method_read, socks_auth_write,
  socks_auth_read, socks_command_write, socks_command_read, http_write, http_read, complete, Text,
  Handshake, Done, new_handshake, Protocol, socks5, http_connect, Command, connect, udp_associate,
  socks_greeting, http_connect_request, pending, after_write, enter, advance_output, started,
}
use yayatht.Proxy.Receive.Inv.{rank, is_complete, Inv}

-- A new handshake satisfies the invariant, and has written nothing.
pub new_handshake-Inv :
    (text : Text) (p : Protocol) (c : Command) (target : SocketAddr) (cr : Option Credentials)
    (h : Handshake)
    → new_handshake text p c target cr ≡ ok h
    → Inv h
unfolding new_handshake after_write rank socks_greeting http_connect_request
new_handshake-Inv text socks5 c target cr h e = subst Inv (socks e) fresh
  where
    socks :
        (ok (started socks_greeting_write c target cr (socks_greeting (is_some cr))) ≡ ok h)
        → started socks_greeting_write c target cr (socks_greeting (is_some cr)) ≡ h
    socks e = cc

    greeting_pos : (b : Bool) → 0 < length (socks_greeting b)
    greeting_pos true = omega arith
    greeting_pos false = omega arith

    fresh : Inv (started socks_greeting_write c target cr (socks_greeting (is_some cr)))
    fresh = record {
      writing = λ w. greeting_pos (is_some cr);
      reading = λ w. absurd cc;
      forgotten = λ w. absurd cc;
    }
new_handshake-Inv text http_connect connect target cr h e = subst Inv (http e) fresh
  where
    http :
        (ok (started http_write connect target cr (http_connect_request text target cr)) ≡ ok h)
        → started http_write connect target cr (http_connect_request text target cr) ≡ h
    http e = cc

    fresh : Inv (started http_write connect target cr (http_connect_request text target cr))
    fresh = record {
      writing = λ w. omega arith;
      reading = λ w. absurd cc;
      forgotten = λ w. absurd cc;
    }
new_handshake-Inv text http_connect udp_associate target cr h e = cc

-- The outcomes of `advance_output`: an error that changes nothing, or the bytes are taken off what is
-- pending, in the same state while something is left, in a later one otherwise.
unfoldable pub Written : Handshake → ℕ → Result Done × Handshake → Type 0
Written h n (err e, g) = (g ≡ h) × ((length (pending h) < n) ⊎ (length (pending h) ≡ 0))
Written h n (ok d, g) =
    Inv g
    × (0 < length (pending h))
    × (length (pending g) + n ≡ length (pending h))
    × (if length (pending g) == 0 then rank h.state < rank g.state else g.state ≡ h.state)

-- A state that does not write has nothing pending.
idle : (h : Handshake) → Inv h → is_some (after_write h.state) ≡ false → length (pending h) ≡ 0
idle h v e = omega (arith, length-drop h.output_offset h.output, v.reading e)

moved_on :
    (h : Handshake) (s : State)
    → is_some (after_write s) ≡ false
    → is_complete s ≡ false
    → Inv (record h { output = []; output_offset = 0; state = s })
moved_on h s w f = record {
  writing = λ e. absurd cc;
  reading = λ e. (refl, refl);
  forgotten = λ e. absurd cc;
}

entering :
    (h : Handshake) (n : ℕ) (s : State)
    → Inv h
    → h.state ≡ s
    → length (pending h) ≡ n
    → 0 < n
    → Written h n (enter (record h { output = []; output_offset = 0 }) (after_write s))
unfolding Written enter after_write rank
entering h n socks_greeting_write v e p pos =
    (moved_on h socks_method_read refl refl, omega arith, omega arith, rw e (omega arith))
entering h n socks_auth_write v e p pos =
    (moved_on h socks_auth_read refl refl, omega arith, omega arith, rw e (omega arith))
entering h n socks_command_write v e p pos =
    (moved_on h socks_command_read refl refl, omega arith, omega arith, rw e (omega arith))
entering h n http_write v e p pos =
    (moved_on h http_read refl refl, omega arith, omega arith, rw e (omega arith))
entering h n socks_method_read v e p pos = absurd (omega (arith, idle h v (rw e refl)))
entering h n socks_auth_read v e p pos = absurd (omega (arith, idle h v (rw e refl)))
entering h n socks_command_read v e p pos = absurd (omega (arith, idle h v (rw e refl)))
entering h n http_read v e p pos = absurd (omega (arith, idle h v (rw e refl)))
entering h n complete v e p pos = absurd (omega (arith, idle h v (rw e refl)))

-- On a handshake that satisfies the invariant `advance_output` fails exactly as `Written` says and
-- changes nothing then; otherwise it takes the bytes off what is pending, keeps the invariant, and
-- moves to a later state when nothing is left. No output is finished in a state that does not write.
pub advance_output-Written : (h : Handshake) (n : ℕ) → Inv h → Written h n (advance_output h n)
unfolding advance_output Written after_write
advance_output-Written h n v =
    let m = length-drop h.output_offset h.output in
    let k = length-drop (h.output_offset + n) h.output in
    if-cases (Written h n) (ltb (length (pending h)) n || length (pending h) == 0)
      (λ t. (refl, ground arith))
      (λ t.
        if-cases (Written h n) (not (h.output_offset + n == length h.output))
          (λ more. (
            record {
              writing = λ w. ground (arith, m);
              reading = λ w. absurd (ground (arith, idle h v w));
              forgotten = v.forgotten;
            },
            ground arith,
            ground (arith, m, k),
            if-cases (λ T. T) (length (drop (h.output_offset + n) h.output) == 0)
                (λ z. absurd (ground (arith, m, k))) (λ z. refl),
          ))
          (λ last. entering h n h.state v refl (ground (arith, m)) (ground (arith, m))))
