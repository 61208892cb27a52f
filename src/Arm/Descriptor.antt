-- ===== src/Arm/Descriptor.antt =====
-- The socket of the arming module, from `arm_init` to `arm_final`.
use av3_fc.Base.Int.{ℤ, pos, negsuc}
use av3_fc.Base.{ℕ, List, [], ◌∷◌, ◌++◌, ◌≡◌, refl, ◌∙◌}
use av3_fc.Arm.{State, Output, arm_send_signal, send_arm_response, zeroed, arm_init, arm_final}
use av3_fc.Arm
use av3_fc.Sockets.{Call, socket, connect, close, udp_socket}
use av3_fc.Sockets.Open.{open_after, without, without_self}

-- The outputs that close `sd`.
abbrev pub closes : ℤ → List Output → List Call
closes sd [] = []
closes sd (Arm.close ∷ os) = close sd ∷ closes sd os
closes sd (arm_send_signal code ∷ os) = closes sd os
closes sd (send_arm_response text ∷ os) = closes sd os

-- What is done to descriptors in `arm_init`, with what `socket` and `connect` give.
abbrev pub init_calls : ℤ → ℤ → List Call
init_calls created connected =
    let (s, outs) = arm_init created connected zeroed in
    (udp_socket created).1 ++ connect created connected ∷ closes s.sd outs

-- What `arm_final` does after that.
abbrev pub final_calls : ℤ → ℤ → List Call
final_calls created connected =
    let s = (arm_init created connected zeroed).0 in closes s.sd (arm_final s).1

-- If `socket` and `connect` give no error, the module closes its socket in the end, and no other. If
-- `connect` fails, `arm_init` closes the socket, and `arm_final` closes the number again: if in
-- between the number was given to another module, that one's descriptor is closed.
pub arm_init-arm_final :
    (n c e : ℕ) (fds : List ℕ)
    → (open_after (init_calls (pos n) (pos c)) fds ≡ n ∷ fds)
      × (open_after (init_calls (pos n) (pos c) ++ final_calls (pos n) (pos c)) fds ≡ fds)
      × (open_after (init_calls (pos n) (negsuc e)) fds ≡ fds)
      × (open_after
            (init_calls (pos n) (negsuc e) ++ socket (pos n) ∷ final_calls (pos n) (negsuc e))
            fds
          ≡ fds)
unfolding arm_init arm_final udp_socket
arm_init-arm_final n c e fds = (
  refl,
  without_self n fds,
  without_self n fds,
  without_self n (without n (n ∷ fds)) ∙ without_self n fds,
)
