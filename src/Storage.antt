-- ===== src/Storage.antt =====
-- gzochi-server/src/gzochid-storage.h: the interface of the storage engines, with the contexts `C` and
-- the transactions `X`, and the strategy of gzochi-server/src/oids.h that goes with a context.
use gnu_gzochi.Base.{ℕ, ◌≡◌, Bool, false, ◌&&◌, Option, none, some, List, if◌then◌else◌, str_equal}
use gnu_gzochi.Timeval.{Timeval}
use gnu_gzochi.DataProtocol.{OidsBlock}

-- The result of `transaction_delete`: 0, `GZOCHID_STORAGE_ENOTFOUND` or `GZOCHID_STORAGE_ETXFAILURE`.
pub data Deleted : Type 0 where
  deleted enotfound etxfailure : Deleted

-- The functions of `gzochid_storage_engine_interface` that data.c and dataserver.c call; `rolls_back`
-- and `should_retry` are the fields `rollback` and `should_retry` of a transaction. `initialize` opens
-- an application's stores. `reserve_block` is no function of that interface: it is the allocation
-- strategy of oids.h, which the callers keep beside the context, and which may fail.
pub record StorageEngine (C X : Type 0) : Type 0 where
  pub initialize : List ℕ → C
  pub reserve_block : C → C × Option OidsBlock
  pub transaction_begin : C → X
  pub transaction_begin_timed : C → Timeval → X
  pub transaction_get : X → List ℕ → List ℕ → X × Option (List ℕ)
  pub transaction_get_for_update : X → List ℕ → List ℕ → X × Option (List ℕ)
  pub transaction_first_key : X → List ℕ → X × Option (List ℕ)
  pub transaction_next_key : X → List ℕ → List ℕ → X × Option (List ℕ)
  pub transaction_put : X → List ℕ → List ℕ → List ℕ → X
  pub transaction_delete : X → List ℕ → List ℕ → X × Deleted
  pub transaction_prepare : X → X
  pub transaction_commit : X → C
  pub transaction_rollback : X → C
  pub rolls_back : X → Bool
  pub should_retry : X → Bool

-- What is stored: the value of a key of a store, if it has one.
abbrev pub View : Type 0
View = List ℕ → List ℕ → Option (List ℕ)

abbrev pub update : List ℕ → List ℕ → Option (List ℕ) → View → View
update store key value view =
    λ s k. if str_equal s store && str_equal k key then value else view s k

-- What an engine is relied on for, which are the ACID properties that gzochi-server/doc/gzochid.texi
-- claims for the container's transactions, and no words of gzochid-storage.h: a transaction sees its own writes on top of what was
-- stored when it began, a commit of a transaction that need not be rolled back stores them, a
-- rollback leaves what was stored.
pub record IsTransactional {C X : Type 0} (engine : StorageEngine C X) : Type 0 where
  pub view : C → View
  pub current : X → View
  pub base : X → View
  pub begin-current : (c : C) → current (engine.transaction_begin c) ≡ view c
  pub begin-base : (c : C) → base (engine.transaction_begin c) ≡ view c
  pub get-value :
      (x : X) (store key : List ℕ)
      → engine.rolls_back (engine.transaction_get x store key).0 ≡ false
      → (engine.transaction_get x store key).1 ≡ current x store key
  pub put-current :
      (x : X) (store key value : List ℕ)
      → engine.rolls_back (engine.transaction_put x store key value) ≡ false
      → current (engine.transaction_put x store key value)
        ≡ update store key (some value) (current x)
  pub put-base :
      (x : X) (store key value : List ℕ) → base (engine.transaction_put x store key value) ≡ base x
  pub delete-current :
      (x : X) (store key : List ℕ)
      → engine.rolls_back (engine.transaction_delete x store key).0 ≡ false
      → current (engine.transaction_delete x store key).0 ≡ update store key none (current x)
  pub delete-base :
      (x : X) (store key : List ℕ) → base (engine.transaction_delete x store key).0 ≡ base x
  pub prepare-current :
      (x : X)
      → engine.rolls_back (engine.transaction_prepare x) ≡ false
      → current (engine.transaction_prepare x) ≡ current x
  pub prepare-base : (x : X) → base (engine.transaction_prepare x) ≡ base x
  pub commit-view :
      (x : X) → engine.rolls_back x ≡ false → view (engine.transaction_commit x) ≡ current x
  pub rollback-view : (x : X) → view (engine.transaction_rollback x) ≡ base x
