-- ===== src/Dispatch/Propagation.antt =====
-- What the replicas are sent when a push wakes a client that waits: the two commands in the wrong order.
use diy_redis.Base.{◌∙◌, ℕ, ◌≡◌, refl, true, false, Option, none, some, List, [], ◌∷◌, arith, inr}
use diy_redis.Base.Int.{pos}
use diy_redis.Js.Text.{Text, codes, str_eq, str_eq_refl, to_lower, is_truthy, starts_with}
use diy_redis.Js.Map.{Map, lookup, includes}
use diy_redis.Store.{Store, set_value, json_list, list}
use diy_redis.Resp.Encode.{simple_int}
use diy_redis.World.{Socket, Waiter, World, propagate, store-propagate}
use diy_redis.Blocking.{get_queue, resolve}
use diy_redis.Lists.{absent, found, find_list, back, pushed, rpush_command, lpop_command}
use diy_redis.Lists.Pushing.{notified, popped_world, push_command-unwatched, push_reply}
use diy_redis.Lists.Popping.{find_list-store_list, find_list-held_value}
use diy_redis.Dispatch.Defs.{
  ConnectionState, Answer, replied, Commands, simple, dispatch, run_command, is_ack, finish,
}

-- RPUSH in the map of commands.
unfoldable pub rpush_simple : List Text → World → Answer × World
rpush_simple args w = let (reply, w') = rpush_command args w in (replied (some reply), w')

-- A replica that runs an LPOP and then an RPUSH on a key that it does not hold has the element.
pub replica_keeps :
    (k t : Text) (r : World)
    → find_list k r.store ≡ absent
    → get_queue k r.queues ≡ []
    → find_list k
        (rpush_command
          (k ∷ t ∷ [])
          (record r { store = (lpop_command (k ∷ []) r.store).1 })).1.store
      ≡ found (t ∷ []) none
unfolding rpush_command
replica_keeps k t r gone quiet = find_list-held_value k t [] none _ (
    (push_command-unwatched back k t [] [] none
        (record r { store = (lpop_command (k ∷ []) r.store).1 })
        (inr (unfold lpop_command in rw gone gone, refl, refl)) quiet).1
      k
    ∙ (unfold pushed in rw (str_eq_refl k) refl))

propagated_twice :
    (p q : List Text) (waiter : Waiter) (result : Option (Text × Text)) (store : Store)
    (queues : Map (List Waiter)) (w : World)
    → (propagate q
        (resolve waiter result (propagate p (record w { store = store; queues = queues })))).sent
      ≡ (propagate q (propagate p w)).sent
unfolding propagate resolve
propagated_twice p q waiter result store queues w = ground arith

-- A reply that lets a write command through to the replicas.
abbrev PropagatesReply : Text → Type 0
PropagatesReply reply = (is_truthy reply ≡ true) × (starts_with reply (codes "-") ≡ false)

rpush_reply : (n : ℕ) → PropagatesReply (simple_int (pos n))
unfolding simple_int starts_with
rpush_reply n = (refl, refl)

module _ (commands : Commands)
    (entry : lookup (codes "rpush") commands ≡ some (simple rpush_simple))
    (connection : Option Socket) (k t : Text) (state : ConnectionState)
    (outside : state.in_transaction ≡ false) (unsubscribed : state.subscribed_channels ≡ [])
    (w : World) where
  dispatch_rpush :
      (reply : Text) (w' : World)
      → rpush_command (k ∷ t ∷ []) w ≡ (reply, w')
      → PropagatesReply reply
      → dispatch commands connection (codes "RPUSH" ∷ k ∷ t ∷ []) state false w
        ≡ (replied (some reply), state, propagate (codes "RPUSH" ∷ k ∷ t ∷ []) w')
  unfolding dispatch to_lower is_ack includes str_eq run_command finish rpush_simple
  dispatch_rpush reply w' e (some_text, no_error) =
      rw (outside, unsubscribed, entry, e, some_text, no_error) refl

  rpush_world :
      (waiter : Waiter) (queue : List Waiter)
      → find_list k w.store ≡ absent
      → get_queue k w.queues ≡ waiter ∷ queue
      → is_truthy t ≡ true
      → rpush_command (k ∷ t ∷ []) w ≡ (
        simple_int (pos 1),
        resolve waiter
            (some (k, t))
            (propagate (codes "LPOP" ∷ k ∷ []) (popped_world k t [] none queue w)),
      )
  unfolding rpush_command
  rpush_world waiter queue gone waits some_text = λ i. (
    push_reply back k t [] [] none w (inr (gone, refl, refl)) i,
    notified back k t [] [] none w t [] waiter queue (inr (gone, refl, refl)) waits
        (unfold pushed in refl) some_text i,
  )

  store_after :
      (waiter : Waiter) (queue : List Waiter)
      → find_list k w.store ≡ absent
      → find_list k
          (propagate (codes "RPUSH" ∷ k ∷ t ∷ []) (
            resolve waiter
              (some (k, t))
              (propagate (codes "LPOP" ∷ k ∷ []) (popped_world k t [] none queue w)))).store
        ≡ absent
  store_after waiter queue gone =
      let popped = popped_world k t [] none queue w in
      rw
        (store-propagate (codes "RPUSH" ∷ k ∷ t ∷ [])
          (resolve waiter (some (k, t)) (propagate (codes "LPOP" ∷ k ∷ []) popped)))
        (unfold resolve in
          rw
            (
              store-propagate (codes "LPOP" ∷ k ∷ []) popped,
              find_list-store_list k k [] none (set_value k (json_list (t ∷ [])) list none w.store),
              str_eq_refl k,
            )
            refl)

  -- RPUSH of one element that is not empty, to a key that is not held and for which a client waits, on a
  -- connection that is in no transaction and not subscribed: the key ends without a list, for the client has the element. The replicas are sent
  -- LPOP first and RPUSH second, and a replica that runs these two in that order, without the key
  -- and with no client waiting there, keeps the element.
  pub rpush_diverges :
      (waiter : Waiter) (queue : List Waiter) (replica : World)
      → find_list k w.store ≡ absent
      → get_queue k w.queues ≡ waiter ∷ queue
      → is_truthy t ≡ true
      → find_list k replica.store ≡ absent
      → get_queue k replica.queues ≡ []
      → (find_list k
            (dispatch commands connection (codes "RPUSH" ∷ k ∷ t ∷ []) state false w).2.store
          ≡ absent)
        × ((dispatch commands connection (codes "RPUSH" ∷ k ∷ t ∷ []) state false w).2.sent
            ≡ (propagate (codes "RPUSH" ∷ k ∷ t ∷ []) (propagate (codes "LPOP" ∷ k ∷ []) w)).sent)
        × (find_list k
              (rpush_command
                (k ∷ t ∷ [])
                (record replica { store = (lpop_command (k ∷ []) replica.store).1 })).1.store
            ≡ found (t ∷ []) none)
  rpush_diverges waiter queue replica gone waits some_text away quiet =
      rw (dispatch_rpush _ _ (rpush_world waiter queue gone waits some_text) (rpush_reply 1)) (
        store_after waiter queue gone,
        propagated_twice (codes "LPOP" ∷ k ∷ []) (codes "RPUSH" ∷ k ∷ t ∷ []) waiter (some (k, t)) _
            _ w,
        replica_keeps k t replica away quiet,
      )
