-- ===== src/Proxy/Tests.antt =====
-- A SOCKS5 handshake and a datagram on concrete bytes.
use yayatht.Base.{ℕ, ◌+◌}
use yayatht.Base.{◌≡◌, refl, true}
use yayatht.Base.{none, some, List, [], ◌∷◌, arith}
use yayatht.Base.{length, take, replicate}
use yayatht.Net.{SocketAddr, v4}
use yayatht.Proxy.Address.{domain}
use yayatht.Proxy.Handshake.{
  connect, socks_method_read, Text, Handshake, started, advance_output, socks_greeting_write,
  after_write,
}
use yayatht.Proxy.Receive.{receive}
use yayatht.Proxy.Receive.Inv.{Inv, Outcome, rank}
use yayatht.Proxy.Receive.Progress.{receive-Outcome}
use yayatht.Proxy.Receive.Output.{Written, advance_output-Written}
use yayatht.Proxy.Datagram
use yayatht.Proxy.Datagram.{encode, decode}
use yayatht.Proxy.Datagram.RoundTrip.{header_len, decode-encode}

abbrev server : SocketAddr
server = v4 (93 ∷ 184 ∷ 216 ∷ 34 ∷ []) 443

abbrev plain_text : Text
plain_text = record {
  authority = λ a. [];
  base64 = λ bytes. bytes;
  is_utf8 = λ bytes. true;
  fields = λ line. line ∷ [];
  parse_u16 = λ word. some 200;
}

abbrev greeting : Handshake
greeting = started socks_greeting_write connect server none (5 ∷ 1 ∷ 0 ∷ [])

abbrev reading : Handshake
reading = record greeting { state = socks_method_read; output = [] }

greeting-Inv : Inv greeting
unfolding after_write rank
greeting-Inv = record {
  writing = λ w. omega arith;
  reading = λ w. absurd cc;
  forgotten = λ w. absurd cc;
}

reading-Inv : Inv reading
unfolding after_write rank
reading-Inv = record {
  writing = λ w. absurd cc;
  reading = λ w. (refl, refl);
  forgotten = λ w. absurd cc;
}

abbrev buffer : List ℕ
buffer = replicate 30 9

abbrev name : List ℕ
name = 97 ∷ 46 ∷ 98 ∷ []

receive-Outcome_example :
    let text = plain_text in
    let h = reading in let input : List ℕ = 5 ∷ 0 ∷ 7 ∷ [] in Outcome h input (receive text h input)
receive-Outcome_example = receive-Outcome plain_text reading (5 ∷ 0 ∷ 7 ∷ []) reading-Inv

advance_output-Written_example :
    let h = greeting in let n : ℕ = 3 in Written h n (advance_output h n)
advance_output-Written_example = advance_output-Written greeting 3 greeting-Inv

decode-encode_example :
    let out = buffer in
    let dst = domain name 443 in
    let payload : List ℕ = 1 ∷ 2 ∷ [] in
    (total : ℕ) × (written : List ℕ) × (encode out dst payload ≡ Datagram.ok (total, written))
    × (total ≡ header_len dst + length payload)
    × (decode (take total written) ≡ Datagram.ok (record { destination = dst; payload = payload }))
decode-encode_example =
    decode-encode buffer (domain name 443) (1 ∷ 2 ∷ []) (omega arith, omega arith, omega arith)
      (omega arith)
