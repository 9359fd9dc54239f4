-- ===== src/Client/NetClient/Lock.antt =====
-- The lock mClientCS around the steps of the network thread.
use bf_multiplayer.Prelude.{
  ℕ, zero, suc, ◌-◌, ◌∙◌, ap, some, ◌≡◌, refl, Bool, true, List, [], ◌∷◌, none, ◌==◌, if◌then◌else◌,
  arith, inl, inr, Option-cases,
}
use bf_multiplayer.Packet.{ToSHello, Packet, to_s_hello}
use bf_multiplayer.Client.NetClient.{
  NetClient, lock, Event, connected, disconnected, receive, set_nerve, send_packet, check_stall,
  service_events, service_held, exe_service, max_packets_per_step,
}

service_events-lock_depth :
    (left : ℕ) (es : List Event) (c : NetClient) (n : ℕ)
    → c.lock_depth ≡ n
    → (service_events left es c).1.lock_depth
      ≡ elim (service_events left es c).0 [ none ↦ n - 1 | some l ↦ n ]
unfolding service_events set_nerve
service_events-lock_depth zero es c n h = h
service_events-lock_depth (suc left) [] c n h = h
service_events-lock_depth (suc left) (disconnected ∷ es) c n h = ap (λ d. d - 1) h
service_events-lock_depth (suc left) (receive channel bytes ∷ es) c n h =
    service_events-lock_depth left es _ n (ground (arith, h))
service_events-lock_depth (suc left) (connected ∷ es) c n h =
    service_events-lock_depth left es _ n h

service_held-lock_depth :
    (es : List Event) (c : NetClient) → (service_held es c).lock_depth ≡ c.lock_depth - 1
unfolding service_held
service_held-lock_depth es c = elim (Option-cases (service_events max_packets_per_step es c).0) [
  | inl gone ↦
      rw gone (service_events-lock_depth max_packets_per_step es c c.lock_depth refl ∙ rw gone refl)
  | inr here ↦ rw (here.1) (
      ap (λ n. n - 1)
        (service_events-lock_depth max_packets_per_step es c c.lock_depth refl ∙ rw (here.1) refl))
]

send_packet-lock_depth :
    (p : Packet) (reliable : Bool) (c : NetClient)
    → (send_packet p reliable c).lock_depth ≡ c.lock_depth
unfolding send_packet
send_packet-lock_depth p reliable c = ground arith

-- exeService gives the lock back on every path.
pub exe_service-lock_depth :
    (hello : ToSHello) (free : Bool) (es : List Event) (c : NetClient)
    → (exe_service hello free es c).lock_depth ≡ c.lock_depth
unfolding exe_service check_stall set_nerve
exe_service-lock_depth hello free es c =
    let held =
      service_held-lock_depth es
        (lock (if c.step == 0 then send_packet (to_s_hello hello) true c else c)) in
    ground (arith, held, send_packet-lock_depth (to_s_hello hello) true c)
