-- ===== src/DataStores/Hosted.antt =====
-- gzochi-server/src/dataserver.c behind dataserver-protocol.c: the data server fills the interface that
-- its connections use.
use Prim.Native.Nat.{Ordering}
use gnu_gzochi.Base.{
  ℕ, ◌+◌, ◌≡◌, inl, inr, refl, ◌∙◌, false, Option, none, some, List, [], ◌∷◌, map, ◌>>=◌,
  Option-cases,
}
use gnu_gzochi.Timeval.{Timeval}
use gnu_gzochi.DataProtocol.{Response}
use gnu_gzochi.DataProtocol.Changes.{change_of}
use gnu_gzochi.DataServer.{DataServer, DataserverClient, respond}
use gnu_gzochi.DataClient.Remote.{
  Request, reserve_oids, request_value, request_next_key, submit_changeset, release_key,
  release_key_range, perform,
}
use gnu_gzochi.Lock.{IntervalTree}
use gnu_gzochi.Storage.{StorageEngine}
use gnu_gzochi.DataStores.{Server}
use gnu_gzochi.DataStores.Server.{
  dataserver_reserve_oids, dataserver_request_value, dataserver_request_next_key,
  dataserver_process_changeset, dataserver_release_key, dataserver_release_range,
  dataserver_release_all,
}
use gnu_gzochi.DataStores.Reach.{
  reserves, wants_value, wants_next_key, submits, releases_key, releases_range, serve, serve_all,
}

-- The data server, unless it has failed an assertion or followed a null pointer, and how many calls
-- it has had.
pub record Host (C T : Type 0) : Type 0 where
  pub running : Option (Server C T)
  pub calls : ℕ

-- What a call leaves, with its answer or, if it does not return, an answer that nobody reads.
abbrev answered : {C T A : Type 0} → Host C T → A → Option (Server C T × A) → Host C T × A
answered host unread none = (record { running = none; calls = host.calls + 1 }, unread)
answered host unread (some (server, a)) =
    (record { running = some server; calls = host.calls + 1 }, a)

abbrev left : {C T : Type 0} → Host C T → Option (Server C T) → Host C T
left host running = record { running = running; calls = host.calls + 1 }

answered-left :
    {C T A : Type 0} (host : Host C T) (unread : A) (running : Option (Server C T))
    (call : Server C T → Option (Server C T × A))
    → (answered host unread (running >>= call)).0
      ≡ left host (running >>= λ server. call server >>= λ p. some p.0)
answered-left host unread none call = refl
answered-left host unread (some server) call = elim (Option-cases (call server)) [
  | inl crash ↦ rw crash refl
  | inr (p, returns) ↦ rw returns refl
]

-- `now` and `unset` are what a call finds of the time and in a field that it leaves unset.
module _ {C X T : Type 0} (cmp : List ℕ → List ℕ → Ordering) (tree : IntervalTree (List ℕ) T)
    (engine : StorageEngine C X) (tree_new : T) (now : ℕ → Timeval) (unset : ℕ → ℕ) where
  abbrev pub data_server : DataServer (Host C T)
  data_server = record {
    reserve_oids = λ host node_id app.
        answered host (record { app = app; block = record { block_start = 0; block_size = 0 } })
          (host.running >>= λ server. dataserver_reserve_oids cmp tree engine tree_new server app);
    request_value = λ host node_id app store key for_write. answered host none (
        host.running >>= λ server.
        dataserver_request_value cmp tree engine tree_new server node_id app store key for_write
          (now (host.calls)) (unset (host.calls)));
    request_next_key = λ host node_id app store key. answered host none (
        host.running >>= λ server.
        dataserver_request_next_key cmp tree engine tree_new server node_id app store key
          (now (host.calls)) (unset (host.calls)));
    process_changeset = λ host node_id changeset. answered host false (
        host.running >>= λ server.
        dataserver_process_changeset cmp tree engine tree_new server node_id changeset);
    release_key = λ host node_id app store key. left host (
        host.running >>= λ server.
        dataserver_release_key cmp tree engine tree_new server node_id app store key);
    release_range = λ host node_id app store from to. left host (
        host.running >>= λ server.
        dataserver_release_range cmp tree engine tree_new server node_id app store from to);
    release_all = λ host node_id.
        left host (
          host.running >>= λ server.
          dataserver_release_all cmp tree engine tree_new server node_id);
  }

  -- The request as the data server serves it, on behalf of a node.
  abbrev pub served : ℕ → ℕ → Request → gnu_gzochi.DataStores.Reach.Request
  served node_id calls (reserve_oids app) = reserves app
  served node_id calls (request_value app store key for_write) =
      wants_value node_id app store key for_write (now calls) (unset calls)
  served node_id calls (request_next_key app store key) =
      wants_next_key node_id app store key (now calls) (unset calls)
  served node_id calls (submit_changeset app u us) =
      submits node_id (record { app = app; changes = map change_of (u ∷ us) })
  served node_id calls (release_key app store key) = releases_key node_id app store key
  served node_id calls (release_key_range app store from to) =
      releases_range node_id app store from to

  abbrev pub served_all : ℕ → ℕ → List Request → List gnu_gzochi.DataStores.Reach.Request
  served_all node_id calls [] = []
  served_all node_id calls (r ∷ rs) = served node_id calls r ∷ served_all node_id (calls + 1) rs

  respond-dataserver :
      (client : DataserverClient (Host C T)) (opcode : ℕ) (p : Host C T × Option Response)
      → ((respond data_server client opcode p).1.dataserver ≡ p.0)
        × ((respond data_server client opcode p).1.node_id ≡ client.node_id)
  unfolding respond
  respond-dataserver client opcode (host, none) = (refl, refl)
  respond-dataserver client opcode (host, some response) = (refl, refl)

  -- A request is served, whatever is written back.
  pub perform-serve :
      (client : DataserverClient (Host C T)) (r : Request)
      → let host = client.dataserver in
        ((perform data_server client r).dataserver
          ≡ left host (
              host.running
              >>= serve cmp tree engine tree_new (served (client.node_id) (host.calls) r)))
        × ((perform data_server client r).node_id ≡ client.node_id)
  perform-serve client (reserve_oids app) =
      let host = client.dataserver in (answered-left host _ (host.running) _, refl)
  perform-serve client (request_value app store key for_write) =
      let host = client.dataserver in
      let (same, id) = respond-dataserver client _ _ in
      (same ∙ answered-left host none (host.running) _, id)
  perform-serve client (request_next_key app store key) =
      let host = client.dataserver in
      let (same, id) = respond-dataserver client _ _ in
      (same ∙ answered-left host none (host.running) _, id)
  perform-serve client (submit_changeset app u us) =
      let host = client.dataserver in (answered-left host false (host.running) _, refl)
  perform-serve client (release_key app store key) = (refl, refl)
  perform-serve client (release_key_range app store from to) = (refl, refl)
