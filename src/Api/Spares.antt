-- ===== src/Api/Spares.antt =====
-- Requests on one tunnel: which tunnels they leave alone.
use nexus_link.Base.{ℕ, String, ◌≡◌, refl, inl, inr}
use nexus_link.Base.{Bool, true, false, not, ◌||◌, Option, none, some, List, [], ◌∷◌, ltb, nat_eq}
use nexus_link.Base.{Bool-cases, Option-cases, ◌==◌, Eq-nat, Eq-string, Eq-bytes, Eq-pair}
use nexus_link.Base.{keep, All}
use nexus_link.Base.Dict.{lookup}
use nexus_link.Base.Rows.{keep-update, keep-delete}
use nexus_link.Store.Tables.{Proxy, Store}
use nexus_link.Store.Tunnels.{is_named, delete_proxy, update_proxy, set_proxy_enabled}
use nexus_link.Server.Tunnels.{cleanup_proxy, close_proxy}
use nexus_link.Web.Access.{ApiIdentity}
use nexus_link.Api.State.{
  Panel, put_store, Method, http_get, http_post, http_patch, http_delete, http_other, Reply, Faults,
  refuse, take_down, Payload, nothing, tunnel,
}
use nexus_link.Api.Proxies.{known_type}
use nexus_link.Api.Tunnel.{
  if_found, if_done, changed, ProxyPatch, found_proxy, may_touch, after_change, switch_proxy,
  patched, save_patch, patch_proxy, drop_proxy, act_on_proxy, proxy_by_method, on_proxy,
  proxy_of_path,
}

-- the database does not change when a tunnel is taken down
store-take_down : (name : String) (p : Panel) → (take_down name p).1.1.server.store ≡ p.server.store
unfolding take_down close_proxy cleanup_proxy
store-take_down name p = elim (Option-cases (lookup name p.server.proxies)) [
  | inl (x, h) ↦ rw (h, close_proxy) refl
  | inr h ↦ rw (h, close_proxy) refl
]

store-after_change :
    (down : Bool) (hook name client : String) (p : Panel)
    → (after_change down hook name client p).1.server.store ≡ p.server.store
unfolding after_change
store-after_change true hook name client p = store-take_down name p
store-after_change false hook name client p = refl

-- after a reply, the tunnels that a test selects are those of before
pub record Spares (q : Proxy → Bool) (db : Store) (r : Reply) : Type 0 where
  pub after : Store
  pub stored : r.1.1.server.store ≡ some after
  pub spared : keep q after.proxies ≡ keep q db.proxies

-- no tunnel of the name is selected
abbrev pub Apart : (Proxy → Bool) → String → Store → Type 0
Apart q name db = All (λ x. is_named name x ≡ true → q x ≡ false) db.proxies

module _ (q : Proxy → Bool)
    (by_client : (x y : Proxy) → x.client_name ≡ y.client_name → q x ≡ q y) where
  refuse-Spares :
      (status : ℕ) (db : Store) (p : Panel)
      → p.server.store ≡ some db
      → Spares q db (refuse status p)
  refuse-Spares status db p e = record { after = db; stored = e; spared = refl }

  changed-Spares :
      (shown : Store → Payload) (down : Bool) (hook name client : String) (db : Store) (p : Panel)
      (after : Store)
      → keep q after.proxies ≡ keep q db.proxies
      → Spares q db (changed shown down hook name client p after)
  unfolding changed
  changed-Spares shown down hook name client db p after h = record {
    after = after;
    stored = store-after_change down hook name client (put_store after p);
    spared = h;
  }

  if_found-Spares :
      (db : Store) (p : Panel) (r : Option Bool × Store) (next : Store → Reply)
      → p.server.store ≡ some db
      → keep q r.1.proxies ≡ keep q db.proxies
      → ((after : Store) → keep q after.proxies ≡ keep q db.proxies → Spares q db (next after))
      → Spares q db (if_found r next p)
  unfolding if_found
  if_found-Spares db p (some true, after) next e h n = n after h
  if_found-Spares db p (some false, after) next e h n = record {
    after = after;
    stored = refl;
    spared = h;
  }
  if_found-Spares db p (none, after) next e h n = refuse-Spares 404 db p e

  if_done-Spares :
      (db : Store) (p : Panel) (r : Option Bool × Store) (next : Store → Reply)
      → p.server.store ≡ some db
      → keep q r.1.proxies ≡ keep q db.proxies
      → ((after : Store) → keep q after.proxies ≡ keep q db.proxies → Spares q db (next after))
      → Spares q db (if_done r next p)
  unfolding if_done
  if_done-Spares db p (some b, after) next e h n = n after h
  if_done-Spares db p (none, after) next e h n = refuse-Spares 500 db p e

  keep-set_proxy_enabled :
      (fault : Bool) (name : String) (enabled : Bool) (db : Store)
      → Apart q name db
      → keep q (set_proxy_enabled fault name enabled db).1.proxies ≡ keep q db.proxies
  unfolding set_proxy_enabled
  keep-set_proxy_enabled true name enabled db h = refl
  keep-set_proxy_enabled false name enabled db h =
      keep-update (is_named name) q _ db.proxies (λ y. by_client _ y refl) h

  keep-update_proxy :
      (fault : Bool) (name type : String) (rp lp : ℕ) (la : String) (enabled : Bool) (db : Store)
      → Apart q name db
      → keep q (update_proxy fault name type rp lp la enabled db).1.proxies ≡ keep q db.proxies
  unfolding update_proxy
  keep-update_proxy true name type rp lp la enabled db h = refl
  keep-update_proxy false name type rp lp la enabled db h =
      keep-update (is_named name) q _ db.proxies (λ y. by_client _ y refl) h

  keep-delete_proxy :
      (fault : Bool) (name : String) (db : Store)
      → Apart q name db
      → keep q (delete_proxy fault name db).1.proxies ≡ keep q db.proxies
  unfolding delete_proxy
  keep-delete_proxy true name db h = refl
  keep-delete_proxy false name db h = keep-delete (is_named name) q db.proxies h

  switch_proxy-Spares :
      (f : Faults) (name : String) (enabled : Bool) (db : Store) (p : Panel)
      → p.server.store ≡ some db
      → Apart q name db
      → Spares q db (switch_proxy f name enabled db p)
  unfolding switch_proxy
  switch_proxy-Spares f name enabled db p e h = elim (Option-cases (found_proxy f.read name db)) [
    | inr n ↦ rw (n, switch_proxy) (refuse-Spares 404 db p e)
    | inl (x, n) ↦
        rw (n, switch_proxy)
          (if_done-Spares db p (set_proxy_enabled f.write name enabled db)
            (changed (λ _. nothing) (not enabled) "proxy_disabled" name x.client_name p) e
            (keep-set_proxy_enabled f.write name enabled db h)
            (changed-Spares (λ _. nothing) (not enabled) "proxy_disabled" name x.client_name db p))
  ]

  save_patch-Spares :
      (f : Faults) (y : Proxy) (name : String) (db : Store) (p : Panel)
      → p.server.store ≡ some db
      → Apart q name db
      → Spares q db (save_patch f y name db p)
  unfolding save_patch
  save_patch-Spares f y name db p e h =
      let shown : Store → Payload = λ after. tunnel (found_proxy f.reread name after) in
      if_found-Spares db p
        (update_proxy f.write name y.type y.remote_port y.local_port y.local_addr y.enabled db)
        (changed shown (not y.enabled) "proxy_updated" name y.client_name p) e
        (keep-update_proxy f.write name y.type y.remote_port y.local_port y.local_addr y.enabled db
          h)
        (changed-Spares shown (not y.enabled) "proxy_updated" name y.client_name db p)

  patch_proxy-Spares :
      (f : Faults) (name : String) (body : Option ProxyPatch) (db : Store) (p : Panel)
      → p.server.store ≡ some db
      → Apart q name db
      → Spares q db (patch_proxy f name body db p)
  unfolding patch_proxy
  patch_proxy-Spares f name body db p e h = elim (Option-cases (found_proxy f.read name db)) [
    | inr n ↦ rw (n, patch_proxy) (refuse-Spares 404 db p e)
    | inl (x, n) ↦ elim (Option-cases body) [
      | inr b ↦ rw (n, b, patch_proxy) (refuse-Spares 400 db p e)
      | inl (r, b) ↦
          let y = patched r x in
          elim (Bool-cases
            (not (known_type y.type) || nat_eq y.remote_port 0 || ltb 65535 y.remote_port)) [
              | inl t ↦ rw (n, b, t, patch_proxy) (refuse-Spares 400 db p e)
              | inr t ↦ rw (n, b, t, patch_proxy) (save_patch-Spares f y name db p e h)
            ]
    ]
  ]

  drop_proxy-Spares :
      (f : Faults) (name : String) (db : Store) (p : Panel)
      → p.server.store ≡ some db
      → Apart q name db
      → Spares q db (drop_proxy f name db p)
  unfolding drop_proxy
  drop_proxy-Spares f name db p e h = elim (Option-cases (found_proxy f.read name db)) [
    | inr n ↦ rw (n, drop_proxy) (refuse-Spares 404 db p e)
    | inl (x, n) ↦
        rw (n, drop_proxy)
          (if_found-Spares db p (delete_proxy f.write name db)
            (changed (λ _. nothing) true "proxy_deleted" name x.client_name p) e
            (keep-delete_proxy f.write name db h)
            (changed-Spares (λ _. nothing) true "proxy_deleted" name x.client_name db p))
  ]

  act_on_proxy-Spares :
      (f : Faults) (method : Method) (name action : String) (db : Store) (p : Panel)
      → p.server.store ≡ some db
      → Apart q name db
      → Spares q db (act_on_proxy f method name action db p)
  unfolding act_on_proxy
  act_on_proxy-Spares f method name action db p e h =
      elim (Bool-cases (action == "enable" || action == "disable")) [
        | inr t ↦ rw (t, act_on_proxy) (refuse-Spares 400 db p e)
        | inl t ↦
            rw (t, act_on_proxy)
              (elim method
                as (λ k. Spares q db (elim k as (λ _. Reply) [
                  | http_post ↦ switch_proxy f name (action == "enable") db p
                  | _ ↦ refuse 405 p
                ])) [
                  | http_post ↦ switch_proxy-Spares f name (action == "enable") db p e h
                  | _ ↦ refuse-Spares 405 db p e
                ])
      ]

  proxy_by_method-Spares :
      (f : Faults) (method : Method) (name : String) (body : Option ProxyPatch) (db : Store)
      (p : Panel)
      → p.server.store ≡ some db
      → Apart q name db
      → Spares q db (proxy_by_method f method name body db p)
  unfolding proxy_by_method
  proxy_by_method-Spares f http_get name body db p e h =
      elim (Option-cases (found_proxy f.read name db)) [
        | inr n ↦ rw (n, proxy_by_method) (refuse-Spares 404 db p e)
        | inl (x, n) ↦ rw (n, proxy_by_method) (record { after = db; stored = e; spared = refl })
      ]
  proxy_by_method-Spares f http_post name body db p e h = refuse-Spares 405 db p e
  proxy_by_method-Spares f http_patch name body db p e h = patch_proxy-Spares f name body db p e h
  proxy_by_method-Spares f http_delete name body db p e h = drop_proxy-Spares f name db p e h
  proxy_by_method-Spares f http_other name body db p e h = refuse-Spares 405 db p e

  on_proxy-Spares :
      (f : Faults) (method : Method) (name : String) (more : List String) (body : Option ProxyPatch)
      (db : Store) (p : Panel)
      → p.server.store ≡ some db
      → Apart q name db
      → Spares q db (on_proxy f method name more body db p)
  unfolding on_proxy
  on_proxy-Spares f method name [] body db p e h =
      proxy_by_method-Spares f method name body db p e h
  on_proxy-Spares f method name (action ∷ more) body db p e h =
      act_on_proxy-Spares f method name action db p e h

  pub proxy_of_path-Spares :
      (f : Faults) (id : ApiIdentity) (method : Method) (name : String) (more : List String)
      (body : Option ProxyPatch) (db : Store) (p : Panel)
      → p.server.store ≡ some db
      → Apart q name db
      → Spares q db (proxy_of_path f id method (name ∷ more) body db p)
  unfolding proxy_of_path
  proxy_of_path-Spares f id method name more body db p e h =
      elim (Bool-cases (name == "" || name == "close")) [
        | inl t ↦ rw (t, proxy_of_path) (refuse-Spares 400 db p e)
        | inr t ↦ elim (Bool-cases (may_touch f id name db p)) [
          | inr m ↦ rw (t, m, proxy_of_path) (refuse-Spares 403 db p e)
          | inl m ↦ rw (t, m, proxy_of_path) (on_proxy-Spares f method name more body db p e h)
        ]
      ]
