-- ===== src/Workload/Relay/Tests.antt =====
-- One exchange through the relay (src/workload/relay.rs).
use cfab.Prelude.{
  ℕ, ◌+◌, ◌<◌, ◌≤◌, ◌≡◌, ◌≢◌, refl, ◌⊎◌, List, [], ◌∷◌, ◌++◌, some, arith, length, replicate,
  get_or, if◌then◌else◌,
}
use cfab.Prelude.Bytes.{Bytes, to_be32, be32}
use cfab.Workload.Relay.{
  server_port, client_port, magic_cookie, bootreply, op, hops, giaddr, ciaddr, yiaddr, parse,
  is_unspecified, broadcast_address, scan, option, message_type, lease_time, chaddr6, forward,
  discard, hops_exceeded, forward_client, forward_server, discovered, ack_discovery,
}
use cfab.Model.Prefix.{Ipv4Prefix}
use cfab.Workload.Relay.Options.{Field, pad, opt, encode, option-encode}
use cfab.Workload.Relay.Hops.{forwarded_request, relay_path}
use cfab.Workload.Relay.Replies.{IsOwn, Taught, forwarded_reply, discovered_is_safe}

abbrev leg : ℕ
leg = be32 (10 ∷ 20 ∷ 0 ∷ 1 ∷ [])

abbrev server : ℕ
server = be32 (10 ∷ 20 ∷ 0 ∷ 9 ∷ [])

abbrev offered : ℕ
offered = be32 (10 ∷ 20 ∷ 0 ∷ 77 ∷ [])

-- The header, by its variable fields.
abbrev header : ℕ → ℕ → ℕ → ℕ → Bytes
header kind n your relay =
    kind
    ∷ 1
    ∷ 6
    ∷ n
    ∷ (replicate 12 0
        ++ (to_be32 your
            ++ (replicate 4 0
                ++ (to_be32 relay ++ (replicate 16 7 ++ (replicate 192 0 ++ magic_cookie))))))

abbrev fields : List Field
fields = opt 53 (5 ∷ []) ∷ pad ∷ opt 51 (0 ∷ 0 ∷ 14 ∷ 16 ∷ []) ∷ []

abbrev request : Bytes
request = header 1 0 0 0 ++ encode fields (255 ∷ [])

abbrev reply : Bytes
reply = header 2 1 offered leg ++ encode fields (255 ∷ [])

abbrev prefix : Ipv4Prefix
prefix = record { net = be32 (10 ∷ 20 ∷ 0 ∷ 0 ∷ []); len = 24 }

abbrev sent : Bytes
sent = header 1 1 0 leg ++ encode fields (255 ∷ [])

request-sent : forward_client request leg server ≡ forward server server_port sent
unfolding forward_client parse
request-sent = refl

reply_sent :
    forward_server reply server leg server prefix ≡ forward broadcast_address client_port reply
unfolding forward_server parse
reply_sent = refl

learned : ack_discovery reply prefix (leg ∷ []) ≡ discovered offered (replicate 6 7) (some 3600)
unfolding ack_discovery parse message_type lease_time option scan chaddr6
learned = refl

last_hop : forward_client (header 1 16 0 0) leg server ≡ discard hops_exceeded
unfolding forward_client parse
last_hop = refl

option-encode_example : option 51 4 reply ≡ some (0 ∷ 0 ∷ 14 ∷ 16 ∷ [])
option-encode_example = option-encode (header 2 1 offered leg) fields 51 4 [] refl (
  ((λ e. ground (arith, e)), (λ e. ground (arith, e))),
  (tt, (((λ e. ground (arith, e)), (λ e. ground (arith, e))), tt)),
)

forwarded_request_example :
    (server ≡ server)
    × (server_port ≡ server_port)
    × (hops request < 16)
    × (hops sent ≡ hops request + 1)
    × (giaddr sent ≡ leg)
    × (length sent ≡ length request)
    × ((i : ℕ) → i ≢ 3 → (i < 24) ⊎ (28 ≤ i) → get_or sent i 0 ≡ get_or request i 0)
forwarded_request_example = forwarded_request request leg server (omega arith) request-sent

abbrev relays : List (ℕ × ℕ)
relays = (leg, server) ∷ []

there : relay_path relays request ≡ some sent
unfolding relay_path forward_client parse
there = refl

forwarded_reply_example :
    (op reply ≡ bootreply)
    × (server ≡ server)
    × (giaddr reply ≡ leg)
    × IsOwn prefix (ciaddr reply)
    × IsOwn prefix (yiaddr reply)
    × (broadcast_address
        ≡ (if is_unspecified (ciaddr reply) then broadcast_address else ciaddr reply))
    × (client_port ≡ client_port)
    × (reply ≡ reply)
forwarded_reply_example = forwarded_reply reply server leg server prefix reply_sent

discovered_is_safe_example : Taught prefix (leg ∷ []) reply offered (replicate 6 7) (some 3600)
discovered_is_safe_example = discovered_is_safe reply prefix (leg ∷ []) learned
