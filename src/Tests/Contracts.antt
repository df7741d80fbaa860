-- ===== src/Tests/Contracts.antt =====
-- Writes to the tables of stacks.
use poor_man_cluster.Common.{[], ◌∷◌, List}
use poor_man_cluster.Store.Stacks.Contract.{
  Write, deploy, stamp_hash, note_error, delete, writes, replays, view,
}
use poor_man_cluster.Store.Stacks.Contract.Refines.{Agree, writes_refine}
use poor_man_cluster.Tests.{shop_8, tables}

abbrev some_writes : List Write
some_writes =
    deploy shop_8 "" 200
    ∷ stamp_hash "shop" 8 "hash"
    ∷ note_error "shop" 8 "down" 201
    ∷ deploy shop_8 "" 202
    ∷ delete "blog"
    ∷ []

writes_refine_example : Agree (view (writes some_writes tables)) (replays some_writes (view tables))
writes_refine_example = writes_refine some_writes tables
