-- ===== src/Kinds/Entries.antt =====
-- The commands on streams.
use diy_redis.Base.{◌≡◌, refl, false, List, [], ◌∷◌, ◌++◌}
use diy_redis.Js.Text.{Text}
use diy_redis.Store.{Entry, json_stream, stream}
use diy_redis.World.{World, is_nil}
use diy_redis.Streams.{xadd_command, xread_command, forget_reader, wait_for_entries}
use diy_redis.Streams.Kept.{xadd_command-Keeps, xread_command-Keeps}
use diy_redis.Kinds.Defs.{HasKinds, Kinded, set_value-HasKinds}

some-append_entry : (es : List Entry) (e : Entry) → is_nil (es ++ e ∷ []) ≡ false
some-append_entry [] e = refl
some-append_entry (f ∷ es) e = refl

pub xadd_command-HasKinds :
    (args : List Text) (w : World) → HasKinds w.store → HasKinds (xadd_command args w).1.store
unfolding forget_reader
xadd_command-HasKinds =
    xadd_command-Keeps Kinded (λ n w h. h) (λ n response w h. h)
      (λ k es new e w h.
        set_value-HasKinds k (json_stream (es ++ new ∷ [])) stream e w.store
          (rw (some-append_entry es new) refl) h)

pub xread_command-HasKinds :
    (args : List Text) (w : World) → HasKinds w.store → HasKinds (xread_command args w).1.store
unfolding wait_for_entries
xread_command-HasKinds = xread_command-Keeps Kinded (λ timeout keys starts w h. h)
