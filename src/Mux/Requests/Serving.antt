-- ===== src/Mux/Requests/Serving.antt =====
-- What the server does with the edges that come and go, and which edge a request reaches.
use accel_proxy.Mux.Requests.{
  MuxServer, Registering, alloc_stream_id, dispatch_request, end_edge, forwards, handle_edge, slash,
  split_path, with_query,
}
use accel_proxy.Common.{
  All, Option-cases, String, [], ap, arith, beq_cases, bool_eq, false, if_both, if◌then◌else◌, inl,
  inr, length, nat_beq, nat_eq, none, not, pair_eq, refl, some, string_eq, sym, text_append, true,
  ℕ, ◌&&◌, ◌++◌, ◌<◌, ◌==◌, ◌↔◌, ◌∙◌, ◌∷◌, ◌≡◌, ◌≢◌, ◌⊎◌,
}
use accel_proxy.Common.Dict.{lookup, lookup-insert_self}
use accel_proxy.Mux.Server.{has_capability}
use accel_proxy.Wire.{Bytes}

-- After a node has registered, the end of an earlier connection of it leaves the new one in the table.
pub end_edge-handle_edge :
    (s : MuxServer) (reg : Registering) (j : ℕ)
    → (reg.node_id == "") ≡ false
    → j < s.next_session
    → lookup reg.node_id (end_edge (handle_edge s (some reg) true).0 reg.node_id j).nodes
      ≡ some s.next_session
unfolding end_edge handle_edge
end_edge-handle_edge s reg j named older =
    ground (arith, lookup-insert_self reg.node_id s.next_session s.nodes)

-- How the path after "/dispatch/" names a node and a path at it: the node has no slash, and the path
-- begins at the first one, or is a slash alone where there is none.
pub Names : Bytes → Bytes → Bytes → Type 0
Names rest node path =
    All (λ c. c ≢ 47) node
    × (((rest ≡ node) × (path ≡ 47 ∷ []))
        ⊎ ((tail : Bytes) × (rest ≡ node ++ path) × (path ≡ 47 ∷ tail)))

split_path-Names : (rest : Bytes) → Names rest (split_path rest).0 (split_path rest).1
unfolding split_path Names
split_path-Names [] = (tt, inl (refl, refl))
split_path-Names (c ∷ more) =
    if_both (λ (r : Bytes × Bytes). Names (c ∷ more) r.0 r.1) (nat_beq c slash)
      (λ t. (tt, inr (more, refl, ground (arith, t))))
      (λ t. longer c more (ground (arith, t)) (split_path-Names more))
  where
    longer :
        (c : ℕ) (more : Bytes)
        → c ≢ 47
        → Names more (split_path more).0 (split_path more).1
        → Names (c ∷ more) (c ∷ (split_path more).0) (split_path more).1
    longer c more n (h, inl (p, q)) = ((n, h), inl (ap (λ x. c ∷ x) p, q))
    longer c more n (h, inr (tail, p, q)) = ((n, h), inr (tail, ap (λ x. c ∷ x) p, q))

split_path_slash :
    (node tail : Bytes)
    → All (λ c. c ≢ 47) node
    → split_path (node ++ (47 ∷ tail)) ≡ (node, 47 ∷ tail)
unfolding split_path
split_path_slash [] tail h = refl
split_path_slash (c ∷ node) tail (n, h) =
    let other : nat_beq c slash ≡ false = ground (arith, n) in
    ground (arith, other, split_path_slash node tail h)

split_path_plain : (node : Bytes) → All (λ c. c ≢ 47) node → split_path node ≡ (node, 47 ∷ [])
unfolding split_path
split_path_plain [] h = refl
split_path_plain (c ∷ node) (n, h) =
    let other : nat_beq c slash ≡ false = ground (arith, n) in
    ground (arith, other, split_path_plain node h)

-- There is one way only.
Names-split_path : (node path rest : Bytes) → Names rest node path → split_path rest ≡ (node, path)
unfolding Names
Names-split_path node path rest (h, inl (p, q)) =
    ap split_path p ∙ split_path_plain node h ∙ ap (λ x. (node, x)) (sym q)
Names-split_path node path rest (h, inr (tail, p, q)) =
    ap split_path (p ∙ ap (λ x. node ++ x) q)
    ∙ split_path_slash node tail h
    ∙ ap (λ x. (node, x)) (sym q)

-- What a request needs to reach the session `i` at `target`.
pub Served : (Bytes → String) → MuxServer → String → Bytes → Bytes → ℕ → Bytes → Type 0
Served text s authorization rest query i target =
    (s.push_api_key ≡ "" ⊎ authorization ≡ text_append "Bearer " s.push_api_key)
    × (0 < length rest)
    × ((node : Bytes) × (path : Bytes) × Names rest node path
        × (lookup (text node) s.nodes ≡ some i)
        × (has_capability (s.sessions i).capabilities "reverse-http" ≡ true)
        × (target ≡ (if nat_beq (length query) 0 then path else path ++ (63 ∷ query))))

module _ (text : Bytes → String) (s : MuxServer) (authorization : String) (rest query : Bytes)
    (i : ℕ) (target : Bytes) where
  bearer : String
  bearer = text_append "Bearer " s.push_api_key

  forwards-Served :
      (id : ℕ)
      → (dispatch_request text s authorization rest query).1 ≡ forwards i id target
      → Served text s authorization rest query i target
  unfolding dispatch_request Served bearer with_query
  forwards-Served id h =
      let (found, able, path) =
        reached (Option-cases (lookup (text (split_path rest).0) s.nodes)) in
      (
        allowed (beq_cases s.push_api_key "") (beq_cases authorization bearer),
        ground (arith, h),
        ((split_path rest).0, (split_path rest).1, split_path-Names rest, found, able, path),
      )
    where
      allowed :
          (((s.push_api_key == "") ≡ true) × (s.push_api_key ≡ ""))
            ⊎ ((s.push_api_key == "") ≡ false)
          → (((authorization == bearer) ≡ true) × (authorization ≡ bearer))
            ⊎ ((authorization == bearer) ≡ false)
          → s.push_api_key ≡ "" ⊎ authorization ≡ bearer
      allowed (inl (t, p)) q = inl p
      allowed (inr n) (inl (t, p)) = inr p
      allowed (inr n) (inr k) = ground (arith, n, k, h)

      reached :
          (lookup (text (split_path rest).0) s.nodes ≡ none)
            ⊎ ((k : ℕ) × (lookup (text (split_path rest).0) s.nodes ≡ some k))
          → (lookup (text (split_path rest).0) s.nodes ≡ some i)
            × (has_capability (s.sessions i).capabilities "reverse-http" ≡ true)
            × (target ≡ (
                if nat_beq (length query) 0
                then (split_path rest).1
                else (split_path rest).1 ++ (63 ∷ query)))
      reached (inl e) = ground (arith, e, h)
      reached (inr (k, e)) =
          let same : k ≡ i = ground (arith, e, h) in
          (ground (arith, e, same), ground (arith, e, same, h), ground (arith, e, h))

  open_to :
      s.push_api_key ≡ "" ⊎ authorization ≡ bearer
      → (not (s.push_api_key == "") && not (authorization == bearer)) ≡ false
  open_to (inl p) = let t = (string_eq.beq_iff s.push_api_key "").1 p in ground (arith, t)
  open_to (inr p) = let t = (string_eq.beq_iff authorization bearer).1 p in ground (arith, t)

  Served-forwards :
      Served text s authorization rest query i target
      → (dispatch_request text s authorization rest query).1
        ≡ forwards i (alloc_stream_id s.next_sid).1 target
  unfolding dispatch_request Served with_query bearer
  Served-forwards (k, g, (node, path, n, f, a, t)) =
      let q = Names-split_path node path rest n in
      let found : lookup (text (split_path rest).0) s.nodes ≡ some i =
        ap (λ x. lookup (text x.0) s.nodes) q ∙ f in
      let at : target ≡ with_query (split_path rest).1 query =
        t ∙ ap (λ x. with_query x.1 query) (sym q) in
      ground (arith, open_to k, g, found, a, at)

  -- A request is forwarded to a session with a target exactly if it has the key of the server, where
  -- there is one, its path names a node and a path at it, the node is that of the session, which
  -- accepts requests, and the target is the path with the query.
  pub dispatch_request_lem :
      ((id : ℕ) × ((dispatch_request text s authorization rest query).1 ≡ forwards i id target))
      ↔ Served text s authorization rest query i target
  dispatch_request_lem =
      ((λ h. forwards-Served h.0 h.1), (λ v. ((alloc_stream_id s.next_sid).1, Served-forwards v)))
