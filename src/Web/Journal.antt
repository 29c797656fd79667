-- ===== src/Web/Journal.antt =====
-- The log of the panel keeps the last 500 entries.
use nexus_link.Base.{ℕ, zero, suc, ◌-◌, ◌≤◌, ◌≡◌, refl, sym, ap, ◌∙◌, inl, inr}
use nexus_link.Base.{List, [], ◌∷◌, ◌++◌, arith, ltb}
use nexus_link.Base.{Bool-cases, Eq-nat, Eq-string, Eq-bytes, Eq-pair}
use nexus_link.Base.{length, drop, length-append, length-drop, drop-drop}
use mathlib.Core.List.{append_assoc, append-nil}
use nexus_link.Web.State.{LogEntry, WebServer, add_log}

unfoldable pub add_logs : List LogEntry → WebServer → WebServer
unfolding add_log
add_logs [] ws = ws
add_logs (e ∷ es) ws = add_logs es (add_log e ws)

abbrev pub last_500 : List LogEntry → List LogEntry
last_500 es = drop (length es - 500) es

logs-add_log :
    (e : LogEntry) (ws : WebServer) → (add_log e ws).logs ≡ last_500 (ws.logs ++ (e ∷ []))
unfolding add_log
logs-add_log e ws = elim (Bool-cases (ltb 500 (length (ws.logs ++ (e ∷ []))))) [
  | inl q ↦ rw (q, add_log) refl
  | inr q ↦
      let z : length (ws.logs ++ (e ∷ [])) - 500 ≡ 0 = ground arith in rw (q, add_log) (rw z refl)
]

drop-append_short :
    (n : ℕ) (xs ys : List LogEntry) → n ≤ length xs → drop n (xs ++ ys) ≡ drop n xs ++ ys
drop-append_short zero xs ys h = refl
drop-append_short (suc n) [] ys h = ground (arith, h)
drop-append_short (suc n) (x ∷ xs) ys h = drop-append_short n xs ys (omega arith)

-- dropping down to 500 first loses nothing that the last 500 need
last_500-append : (xs ys : List LogEntry) → last_500 (last_500 xs ++ ys) ≡ last_500 (xs ++ ys)
last_500-append xs ys =
    let n = length xs - 500 in
    let k = length (drop n xs ++ ys) - 500 in
    let short = drop-append_short n xs ys (omega arith) in
    ap (λ l. drop k l) (sym short)
    ∙ drop-drop n k (xs ++ ys)
    ∙ ap (λ m. drop m (xs ++ ys))
        (omega (arith, length-append xs ys, length-append (drop n xs) ys, length-drop n xs))

-- After any entries the log holds the last 500 of what it held and of them, in their order.
pub logs-add_logs :
    (es : List LogEntry) (ws : WebServer)
    → length ws.logs ≤ 500
    → (add_logs es ws).logs ≡ last_500 (ws.logs ++ es)
unfolding add_logs
logs-add_logs [] ws h =
    let z : length (ws.logs ++ []) - 500 ≡ 0 = omega (arith, length-append ws.logs []) in
    rw (z) (sym (append-nil ws.logs))
logs-add_logs (e ∷ es) ws h =
    let all = ws.logs ++ (e ∷ []) in
    let first = logs-add_log e ws in
    let n = length all - 500 in
    logs-add_logs es (add_log e ws)
      (rw first (omega (arith, length-drop n all, length-append ws.logs (e ∷ []))))
    ∙ rw first (last_500-append all es)
    ∙ ap last_500 (append_assoc ws.logs (e ∷ []) es)
