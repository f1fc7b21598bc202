-- ===== src/Waiters/Entries.antt =====
-- The commands on streams. XREAD gives out a number when it waits.
use diy_redis.Base.{List}
use diy_redis.Js.Text.{Text}
use diy_redis.World.{World}
use diy_redis.Blocking.Keeping.{Sound, older-Queued}
use diy_redis.Streams.{xadd_command, xread_command, forget_reader, wait_for_entries}
use diy_redis.Streams.Kept.{xadd_command-Keeps, xread_command-Keeps}

pub xadd_command-Sound : (args : List Text) (w : World) → Sound w → Sound (xadd_command args w).1
unfolding forget_reader
xadd_command-Sound =
    xadd_command-Keeps Sound (λ n w h. h) (λ n response w h. h) (λ k es new e w h. h)

pub xread_command-Sound : (args : List Text) (w : World) → Sound w → Sound (xread_command args w).1
unfolding wait_for_entries
xread_command-Sound =
    xread_command-Keeps Sound (λ timeout keys starts w h. older-Queued w.next_waiter w.queues h)
