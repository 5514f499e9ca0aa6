-- ===== src/Server/Metrics/Typed.antt =====
-- Every call that adds to /metrics is for a declared family and of its type.
use ws_tunnel.Prelude.{
  Option, none, inl, inr, Bool-cases, ◌==◌, str_beq_iff, ap, sym, ◌∙◌, ◌↔◌, subst, ◌≡◌, refl, some,
  List, [], ◌∷◌, ◌++◌, Str, str_eq, str_beq, beq_refl, All,
}
use ws_tunnel.Prelude.Dict.{lookup, insert}
use ws_tunnel.Prelude.Sets.{sort}
use ws_tunnel.Config.Diff.{str_le}
use ws_tunnel.Server.Stats.{NodeStats}
use ws_tunnel.Server.Registry.{get, stats_of}
use ws_tunnel.Server.Listener.{PortStatus, snapshot}
use ws_tunnel.Server.Plane.{Server}
use ws_tunnel.Server.Metrics.{
  Line, declared, sample, mistyped, MetricSet, Emission, Reading, emit, line_of, emit_all, families,
  declare, declare_all, result_metrics, port_metrics, stream_results, total_metrics, node_metrics,
  nodes_metrics, handle_metrics, reading,
}

-- A line that is no error; a sample is of a family of the table.
abbrev pub IsClean : Line → Type 0
IsClean (declared name typ doc) = lookup name families ≡ some typ
IsClean (sample name labels v) = (typ : Str) × (lookup name families ≡ some typ)
IsClean (mistyped name got typ) = ⊥

-- A call that states the declared type.
abbrev pub Fits : Emission → Type 0
Fits e = lookup e.name families ≡ some e.typ

record Clean (m : MetricSet) : Type 0 where
  types : m.types ≡ families
  lines : All IsClean m.lines

All-append : {A : Type 0} (P : A → Type 0) (xs ys : List A) → All P xs → All P ys → All P (xs ++ ys)
All-append P [] ys a b = b
All-append P (x ∷ xs) ys a b = (a.0, All-append P xs ys a.1 b)

All-append_first : {A : Type 0} (P : A → Type 0) (xs ys : List A) → All P (xs ++ ys) → All P xs
All-append_first P [] ys a = tt
All-append_first P (x ∷ xs) ys a = (a.0, All-append_first P xs ys a.1)

line_of-IsClean :
    (e : Emission) → Fits e → IsClean (line_of (some e.typ) e.typ e.name e.labels e.value)
unfolding line_of
line_of-IsClean e f = rw (beq_refl e.typ) (e.typ, f)

emit-Clean :
    (e : Emission) (m : MetricSet) → Fits e → Clean m → Clean (emit e.typ e.name e.labels e.value m)
unfolding emit
emit-Clean e m f c = record {
  types = c.types;
  lines =
      All-append IsClean m.lines
        (line_of (lookup e.name m.types) e.typ e.name e.labels e.value ∷ []) c.lines
        (rw (c.types, f) (line_of-IsClean e f, tt));
}

emit_all-Clean :
    (es : List Emission) (m : MetricSet) → All Fits es → Clean m → Clean (emit_all es m)
unfolding emit_all
emit_all-Clean [] m f c = c
emit_all-Clean (e ∷ es) m f c =
    emit_all-Clean es (emit e.typ e.name e.labels e.value m) f.1 (emit-Clean e m f.0 c)

result_metrics-Fits :
    (name : Str) (st : NodeStats) (rs : List Str) → All Fits (result_metrics name st rs)
unfolding result_metrics families lookup str_beq
result_metrics-Fits name st [] = tt
result_metrics-Fits name st (r ∷ rs) = (refl, result_metrics-Fits name st rs)

port_metrics-Fits : (name : Str) (ps : List PortStatus) → All Fits (port_metrics name ps)
unfolding port_metrics families lookup str_beq
port_metrics-Fits name [] = tt
port_metrics-Fits name (p ∷ ps) = (refl, (refl, port_metrics-Fits name ps))

total_metrics-Fits :
    (name : Str) (st : NodeStats) (ps : List PortStatus) → All Fits (total_metrics name st ps)
unfolding total_metrics families lookup str_beq
total_metrics-Fits name st ps = (refl, (refl, (refl, (refl, port_metrics-Fits name ps))))

node_metrics-Fits :
    (name : Str) (st : NodeStats) (r : Reading) (ps : List PortStatus)
    → All Fits (node_metrics name st r ps)
unfolding node_metrics families lookup str_beq
node_metrics-Fits name st r ps = (
  refl,
  (
    refl,
    (
      refl,
      (
        refl,
        (
          refl,
          (
            refl,
            All-append Fits (result_metrics name st stream_results) (total_metrics name st ps)
                (result_metrics-Fits name st stream_results) (total_metrics-Fits name st ps),
          ),
        ),
      ),
    ),
  ),
)

declared-Clean : Clean (declare_all families (record { lines = []; types = [] }))
unfolding declare_all declare families lookup insert str_beq
declared-Clean = record {
  types = refl;
  lines =
      (refl, (refl, (refl, (refl, (refl, (refl, (refl, (refl, (refl, (refl, (refl, tt)))))))))));
}

-- The set after the declarations.
abbrev pub table : MetricSet
table = declare_all families (record { lines = []; types = [] })

-- The calls of `handleMetrics` for these nodes, one after the other.
pub calls : List Str → Server → List Emission
calls [] s = []
calls (name ∷ names) s =
    let (st, r) = stats_of name s.registry in
    let s' : Server = record s { registry = r } in
    let ports = snapshot s'.cfg st name s'.listeners in
    node_metrics name st (reading s' name (get name r)) ports ++ calls names s'

emit_all-append :
    (xs ys : List Emission) (m : MetricSet) → emit_all (xs ++ ys) m ≡ emit_all ys (emit_all xs m)
unfolding emit_all
emit_all-append [] ys m = refl
emit_all-append (x ∷ xs) ys m = emit_all-append xs ys (emit x.typ x.name x.labels x.value m)

nodes_metrics-calls :
    (names : List Str) (s : Server) (m : MetricSet)
    → nodes_metrics names s m ≡ emit_all (calls names s) m
unfolding nodes_metrics calls emit_all
nodes_metrics-calls [] s m = refl
nodes_metrics-calls (name ∷ names) s m =
    let (st, r) = stats_of name s.registry in
    let s' : Server = record s { registry = r } in
    let es =
      node_metrics name st (reading s' name (get name r)) (snapshot s'.cfg st name s'.listeners) in
    nodes_metrics-calls names s' (emit_all es m) ∙ sym (emit_all-append es (calls names s') m)

calls-Fits : (names : List Str) (s : Server) → All Fits (calls names s)
unfolding calls
calls-Fits [] s = tt
calls-Fits (name ∷ names) s =
    let (st, r) = stats_of name s.registry in
    let s' : Server = record s { registry = r } in
    let ports = snapshot s'.cfg st name s'.listeners in
    let now = reading s' name (get name r) in
    All-append Fits (node_metrics name st now ports) (calls names s')
      (node_metrics-Fits name st now ports) (calls-Fits names s')

All-append_last : {A : Type 0} (P : A → Type 0) (xs : List A) (y : A) → All P (xs ++ (y ∷ [])) → P y
All-append_last P [] y a = a.0
All-append_last P (x ∷ xs) y a = All-append_last P xs y a.1

line_of-Fits :
    (o : Option Str) (e : Emission)
    → lookup e.name families ≡ o
    → IsClean (line_of o e.typ e.name e.labels e.value)
    → Fits e
unfolding line_of
line_of-Fits none e l c = absurd c
line_of-Fits (some got) e l c = elim (Bool-cases (got == e.typ)) [
  | inl h ↦ l ∙ ap some ((str_beq_iff got e.typ).0 h)
  | inr h ↦ absurd (rw h at c)
]

-- Lines that were there stay.
emit_all-before :
    (es : List Emission) (m : MetricSet) → All IsClean (emit_all es m).lines → All IsClean m.lines
unfolding emit_all emit
emit_all-before [] m c = c
emit_all-before (e ∷ es) m c =
    All-append_first IsClean m.lines
      (line_of (lookup e.name m.types) e.typ e.name e.labels e.value ∷ [])
      (emit_all-before es (emit e.typ e.name e.labels e.value m) c)

emit_all-Fits :
    (es : List Emission) (m : MetricSet)
    → m.types ≡ families
    → All IsClean (emit_all es m).lines
    → All Fits es
unfolding emit_all emit
emit_all-Fits [] m t c = tt
emit_all-Fits (e ∷ es) m t c =
    let m' = emit e.typ e.name e.labels e.value m in
    let last = emit_all-before es m' c in
    (
      line_of-Fits (lookup e.name m.types) e (ap (lookup e.name) (sym t))
          (All-append_last IsClean m.lines _ last),
      emit_all-Fits es m' t c,
    )

-- The text of /metrics, whatever the state of the server, is what its calls of `gauge`, `gaugeInt`
-- and `counter` add to the declared table; each of those calls is for a family of the table and of
-- that family's type, and no line is an error; and for any calls at all, the text has no error line if and only if each is
-- so.
pub handle_metrics-IsClean :
    (s : Server) (es : List Emission)
    → (handle_metrics s ≡ emit_all (calls (sort str_le s.cfg.node_order) s) table)
      × All Fits (calls (sort str_le s.cfg.node_order) s)
      × All IsClean (handle_metrics s).lines
      × (All IsClean (emit_all es table).lines ↔ All Fits es)
unfolding handle_metrics
handle_metrics-IsClean s es = (
  nodes_metrics-calls (sort str_le s.cfg.node_order) s table,
  calls-Fits (sort str_le s.cfg.node_order) s,
  subst (λ m. All IsClean m.lines)
      (sym (nodes_metrics-calls (sort str_le s.cfg.node_order) s table))
      (emit_all-Clean (calls (sort str_le s.cfg.node_order) s) table
        (calls-Fits (sort str_le s.cfg.node_order) s) declared-Clean).lines,
  (
    emit_all-Fits es table declared-Clean.types,
    λ f. (emit_all-Clean es table f declared-Clean).lines,
  ),
)
