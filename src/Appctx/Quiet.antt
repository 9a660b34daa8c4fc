-- ===== src/Appctx/Quiet.antt =====
-- The router before anything is set up.
use gouter.Base.{string_eq, ◌≡◌, refl, ◌∙◌, inl, inr}
use gouter.Config.{Config}
use gouter.Transport.{Packet}
use gouter.Netstack.Manager.{Calls, new_manager, nic_name_for_address, name_containing}
use gouter.Router.Packets.{new_router, dropped, handle}
use gouter.Router.Packets.Bare.{handle-Bare}
use gouter.Router.Packets.Local.{deliver_local-injected}
use gouter.Appctx.{new_app_context}

-- From every configuration and whatever the stack reports: the router of a new context, with no NIC
-- added and no route or label learnt, drops every packet, also one that the stack says is for it.
handle-new_app_context :
    {S : Type 0} (calls : Calls S) (stack : S) (cfg : Config) (pkt : Packet)
    → handle (new_app_context calls stack cfg).router pkt ≡ dropped
unfolding new_app_context new_router new_manager nic_name_for_address name_containing
handle-new_app_context calls stack cfg pkt =
    elim (handle-Bare (new_app_context calls stack cfg).router
      (record { no_routes = refl; no_labels = inr refl; null = refl }) pkt) [
        | inl out ↦ out
        | inr (dst, ours, out) ↦
            out ∙ deliver_local-injected (new_app_context calls stack cfg).router pkt dst tt refl
      ]
