-- ===== src/Plugins/Waits.antt =====
-- pigeon.go: what main receives.
use rpc_pigeon.Common.{
  ◌≡◌, refl, sym, ◌∙◌, List, [], ◌∷◌, ◌++◌, map, none, some, All, All-append, subst, if_cases,
}
use rpc_pigeon.Common.Text.{Text}
use rpc_pigeon.Grpc.Gateway.{EngineConfig, Setting}
use rpc_pigeon.Grpc.Server.{GrpcServer}
use rpc_pigeon.Plugins.{
  Plugin, Factory, grpc_server, one_grpc_server, Routine, running, sending, finished, Process,
  register_plugins, main, after_body, Step, body, receive, Reaches, at_main, step,
}

-- The goroutine's plugin has no channel.
abbrev pub Unheard : Routine → Type 0
Unheard (running f plugin) = plugin.status ≡ none
Unheard (sending plugin) = plugin.status ≡ none
Unheard finished = Unit

servers-Unheard :
    (plugin : Plugin) (rs : List GrpcServer)
    → plugin.status ≡ none
    → All Unheard (map (λ r. running (one_grpc_server r) plugin) rs)
servers-Unheard plugin [] e = tt
servers-Unheard plugin (r ∷ rs) e = (e, servers-Unheard plugin rs e)

after_body-Unheard :
    (s : Setting) (engines : List EngineConfig) (f : Factory) (plugin : Plugin)
    → plugin.status ≡ none
    → All Unheard (after_body s engines f plugin)
unfolding after_body
after_body-Unheard s engines grpc_server plugin e =
    (tt, if_cases (All Unheard) s.enabled _ [] (λ on. servers-Unheard plugin _ e) (λ off. tt))
after_body-Unheard s engines f plugin e = (e, tt)

split_at :
    (xs : List Routine) (r : Routine) (ys : List Routine)
    → All Unheard (xs ++ (r ∷ ys))
    → All Unheard xs × Unheard r × All Unheard ys
split_at [] r ys h = (tt, h.0, h.1)
split_at (x ∷ xs) r ys h = let (a, b, c) = split_at xs r ys h.1 in ((h.0, a), b, c)

Step-waits :
    {run_mode : Text} {s : Setting} {engines : List EngineConfig} {p q : Process}
    → Step run_mode s engines p q
    → All Unheard p.routines
    → (q.receives ≡ p.receives) × All Unheard q.routines
Step-waits {s} {engines} {p} (body xs ys f plugin e ends) h =
    let (before, here, after) = split_at xs (running f plugin) ys (subst (All Unheard) e h) in
    (
      refl,
      All-append Unheard xs (after_body s engines f plugin ++ ys) before (
          All-append Unheard (after_body s engines f plugin) ys
            (after_body-Unheard s engines f plugin here) after),
    )
Step-waits (receive xs ys plugin k rest e heard due) h =
    let (before, here, after) = split_at xs (sending plugin) ys (subst (All Unheard) e h) in
    absurd (let e : none ≡ some k = sym here ∙ heard in cc)

-- Whatever the configuration and in whatever order the plugins and their servers end, main has received
-- nothing: it waits for all four channels for ever, since every goroutine sends over the channel
-- of its own plugin, which is nil, and stays at its send.
pub main_waits :
    {run_mode : Text} {s : Setting} {engines : List EngineConfig} {p : Process}
    → Reaches run_mode s engines p
    → (p.receives ≡ some 3 ∷ some 0 ∷ some 1 ∷ some 2 ∷ []) × All Unheard p.routines
unfolding main register_plugins
main_waits at_main = (refl, (refl, (refl, (refl, (refl, tt)))))
main_waits (step r t) =
    let (receives, unheard) = main_waits r in
    let (same, kept) = Step-waits t unheard in (same ∙ receives, kept)
