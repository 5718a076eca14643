-- ===== src/Server/Reports.antt =====
-- commands.go: the texts of INFO and CLUSTER.
use dist_cache.Base.{
  ℕ, ◌+◌, ◌%◌, ◌^◌, Bool, true, false, none, some, List, [], ◌∷◌, ◌++◌, Bytes, length, same,
  bytes_eq, if◌then◌else◌, ◌==◌,
}
use dist_cache.Base.Decimal.{format_nat, format_int}
use Prim.Native.String.{String}
use dist_cache.Base.Text.{text}
use dist_cache.Cache.Store
use dist_cache.Cache.Store.{Counters}
use dist_cache.Cluster
use dist_cache.Cluster.{Node, Registry}
use dist_cache.Eviction.Policy.{Policy}
use dist_cache.Server.Conn.{Attached, Server, Conn}
use dist_cache.Server.Reply.{Reply, error, bulk}
use dist_cache.Server.World.{Env, to_upper, now}

-- `Fprintf` of a label and a value, with the line's end.
abbrev line : String → Bytes → Bytes
line label value = text label ++ (value ++ 13 ∷ 10 ∷ [])

-- `HitRatio` as INFO prints it; the sum is taken in 64 bits.
abbrev hit_ratio : Env → Counters → Bytes
hit_ratio e n =
    let total = (n.hits + n.misses) % 2 ^ 64 in
    if total == 0 then e.four_decimals 0 1 else e.four_decimals n.hits total

unfoldable pub link_status : Bool → Bytes
link_status true = text "up"
link_status false = text "down"

-- The lines of the replicas, from the number `i` on.
unfoldable pub slave_lines : ℕ → List (Bytes × ℕ × ℕ) → Bytes
unfolding format_nat
slave_lines i [] = []
slave_lines i ((addr, sent, acked) ∷ reps) =
    text "slave"
    ++ (format_nat i
        ++ (text ":addr="
            ++ (addr
                ++ (line ",sent_seq=" (format_nat sent ++ (text ",ack_seq=" ++ format_nat acked))
                    ++ slave_lines (i + 1) reps))))

unfoldable pub role_lines : Attached → Bytes
unfolding link_status slave_lines
role_lines a = elim a.replica as (λ _. Bytes) [
  | some (addr, synced, applied) ↦
      line "role:" (text "replica")
      ++ (line "master_addr:" addr
          ++ (line "master_link_status:" (link_status synced)
              ++ line "slave_repl_offset:" (format_nat applied)))
  | none ↦ elim a.primary as (λ _. Bytes) [
    | some reps ↦
        line "role:" (text "master")
        ++ (line "connected_slaves:" (format_nat (length reps)) ++ slave_lines 0 reps)
    | none ↦ line "role:" (text "master") ++ line "connected_slaves:" (text "0")
  ]
]

module _ (e : Env) {p : Policy} where
  unfoldable pub cmd_info : Server p → Reply
  unfolding role_lines
  cmd_info s =
      let (n, keys, mem) = Store.stats s.world.cache in
      bulk (
        line "# Server" []
        ++ (line "distcache_version:" (text "1.0.0")
            ++ (line "node_id:" s.node_id
                ++ (line "go_version:" e.go_version
                    ++ (line "# Stats" []
                        ++ (line "keyspace_hits:" (format_nat n.hits)
                            ++ (line "keyspace_misses:" (format_nat n.misses)
                                ++ (line "hit_ratio:" (hit_ratio e n)
                                    ++ (line "evictions:" (format_nat n.evictions)
                                        ++ (line "expirations:" (format_nat n.expirations)
                                            ++ (line "keys:" (format_int keys)
                                                ++ (line "memory_bytes:" (format_int mem)
                                                    ++ (line "# Replication" []
                                                        ++ role_lines s.attached)))))))))))))

unfoldable pub node_lines : List Node → Bytes
node_lines [] = []
node_lines (n ∷ ns) =
    n.id
    ++ (text " "
        ++ (n.addr
            ++ (text " "
                ++ ((if n.self then text "myself,master" else text "master")
                    ++ (line " " (if n.alive then text "connected" else text "disconnected")
                        ++ node_lines ns)))))

abbrev cluster_line : Bytes → ℕ → Bytes
cluster_line enabled known =
    line "cluster_enabled:" enabled ++ line "cluster_known_nodes:" (format_nat known)

module _ (e : Env) {p : Policy} where
  unfoldable pub cluster_sub : Bytes → Server p → Conn p → Reply
  unfolding node_lines format_nat
  cluster_sub sub s c =
      if same sub (text "MYID")
      then bulk s.node_id
      else if same sub (text "INFO")
      then bulk (elim s.attached.registry as (λ _. Bytes) [
        | none ↦ cluster_line (text "0") 1
        | some g ↦ cluster_line (text "1") (Cluster.size g)
      ])
      else if same sub (text "NODES")
      then bulk (elim s.attached.registry as (λ _. Bytes) [
        | none ↦ s.node_id ++ (text " " ++ (c.local_addr ++ line " " (text "myself")))
        | some g ↦ node_lines (Cluster.nodes (now s.world) g)
      ])
      else error (text "ERR unknown CLUSTER subcommand '" ++ (sub ++ text "'"))

  unfoldable pub cmd_cluster : List Bytes → Server p → Conn p → Reply
  unfolding cluster_sub to_upper
  cmd_cluster (_ ∷ sub ∷ _) s c = cluster_sub (to_upper e sub) s c
  cmd_cluster _ s c = cluster_sub (text "INFO") s c
