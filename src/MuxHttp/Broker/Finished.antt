-- ===== src/MuxHttp/Broker/Finished.antt =====
-- Which streams `trimAll` leaves in the registry.
use accel_proxy.MuxHttp.Broker.{
  PushBroker, remove_finished, remove_stream, set_buffer, trim_stream, trim_streams,
}
use accel_proxy.Common.{
  List, Option, Option-cases, String, [], ap, arith, beq_cases, bool_eq, false, if_both, inl, inr,
  length, nat_beq, nat_eq, none, pair_eq, refl, some, string_eq, ℕ, ◌<◌, ◌==◌, ◌∙◌, ◌∷◌, ◌≡◌,
}
use accel_proxy.Common.Dict.{Dict}
use accel_proxy.MuxHttp.Registry.{StreamEntry, StreamRegistry, get, get_by_id}
use accel_proxy.MuxHttp.Registry.Index.{get-remove_ne}
use accel_proxy.MuxHttp.Subscriptions.{subscribers}

trim_stream-get :
    (r : StreamRegistry) (o : Option StreamEntry) (off : ℕ) (name : String)
    → get (trim_stream r o off) name ≡ get r name
unfolding trim_stream get set_buffer
trim_stream-get r none off name = refl
trim_stream-get r (some e) off name = refl

pub trim_streams-get :
    (mins : Dict ℕ ℕ) (r : StreamRegistry) (name : String)
    → get (trim_streams r mins) name ≡ get r name
unfolding trim_streams
trim_streams-get [] r name = refl
trim_streams-get ((k, off) ∷ more) r name =
    trim_streams-get more (trim_stream r (get_by_id r k) off) name
    ∙ trim_stream-get r (get_by_id r k) off name

remove_stream_other :
    (b : PushBroker) (gone name : String)
    → (gone == name) ≡ false
    → (get (remove_stream b gone).streams name ≡ get b.streams name)
      × ((remove_stream b gone).subs ≡ b.subs)
unfolding remove_stream
remove_stream_other b gone name n = elim (Option-cases (get b.streams gone)) [
  | inl e ↦ ground (arith, e)
  | inr (x, e) ↦ ground (arith, e, get-remove_ne b.streams gone name n)
]

-- A stream that has a subscriber stays.
pub remove_finished-get :
    (names : List String) (b : PushBroker) (name : String)
    → 0 < length (subscribers b.subs name)
    → get (remove_finished b names).streams name ≡ get b.streams name
unfolding remove_finished
remove_finished-get [] b name h = refl
remove_finished-get (gone ∷ more) b name h = elim (beq_cases gone name) [
  | inl (t, p) ↦
      if_both (λ (c : PushBroker). get (remove_finished c more).streams name ≡ get b.streams name)
        (nat_beq (length (subscribers b.subs gone)) 0)
        (λ u. absurd (ground (arith, u, h, ap (λ x. length (subscribers b.subs x)) p)))
        (λ u. remove_finished-get more b name h)
  | inr n ↦
      let (g, s) = remove_stream_other b gone name n in
      if_both (λ (c : PushBroker). get (remove_finished c more).streams name ≡ get b.streams name)
        (nat_beq (length (subscribers b.subs gone)) 0)
        (λ t.
          remove_finished-get more (remove_stream b gone) name
            (omega (arith, h, ap (λ x. length (subscribers x name)) s))
          ∙ g)
        (λ t. remove_finished-get more b name h)
]
