-- ===== src/Sample/Chain.antt =====
-- `handleChain`: its calls to the worker, and what they make of the answer.
use mathlib.Core.Path.{subst}
use mathlib.Core.Logic.{if_neg}
use native.Mathlib.Decide.{ℕ_discrete}
use eksp.Base.{
  ℕ, zero, suc, ◌≤◌, ◌<◌, Str, codes, List, [], ◌∷◌, ◌++◌, foldl, set, replicate, length,
  length-set, length-replicate, get_elem?, get_elem?-set_self, get_elem?-set_ne, none, some, Option,
  Option-cases, Str-discrete, pos, pos_part, decimal_ℤ, Outcome, ok, err, ◌≡◌, ◌≢◌, ◌⊎◌, inl, inr,
  refl, sym, ap, ◌∙◌, arith, All, All-get_elem?,
}
use eksp.Sample.Requests.{clamp_query_int-range, pos_part-le}
use eksp.Sample.{
  Config, Result, write_json, clamp_query_int, max_work_ms, max_chain_calls, result_of, gather,
  chain_status, handle_chain, Response, chained,
}

-- Every goroutine has run.
abbrev pub AllRun : ℕ → List ℕ → Type 0
AllRun calls order = (i : ℕ) → i < calls → (n : ℕ) × (get_elem? order n ≡ some i)

written : (ℕ → Outcome Str ℕ) → List Result → List ℕ → List Result
written fetch results order = foldl (λ results i. set results i (result_of (fetch i))) results order

length-written :
    (fetch : ℕ → Outcome Str ℕ) (results : List Result) (order : List ℕ)
    → length (written fetch results order) ≡ length results
unfolding written
length-written fetch results [] = refl
length-written fetch results (i ∷ order) =
    length-written fetch (set results i (result_of (fetch i))) order
    ∙ length-set results i (result_of (fetch i))

-- A goroutine's result stays as it is once it is written.
written_stays :
    (fetch : ℕ → Outcome Str ℕ) (results : List Result) (order : List ℕ) (i : ℕ)
    → get_elem? results i ≡ some (result_of (fetch i))
    → get_elem? (written fetch results order) i ≡ some (result_of (fetch i))
unfolding written
written_stays fetch results [] i h = h
written_stays fetch results (j ∷ order) i h =
    written_stays fetch (set results j (result_of (fetch j))) order i (elim (ℕ_discrete j i) [
      | yes e ↦
          subst
            (λ k. get_elem? (set results k (result_of (fetch k))) i ≡ some (result_of (fetch i)))
            (sym e) (get_elem?-set_self results i (result_of (fetch i)) h)
      | no ne ↦ get_elem?-set_ne results j i (result_of (fetch j)) ne ∙ h
    ])

get_elem?-some :
    {A : Type 0} (xs : List A) (i : ℕ) → i < length xs → (a : A) × (get_elem? xs i ≡ some a)
get_elem?-some [] i h = absurd (omega arith)
get_elem?-some (x ∷ xs) zero h = (x, refl)
get_elem?-some (x ∷ xs) (suc i) h = get_elem?-some xs i (omega arith)

get_elem?-lt : {A : Type 0} (xs : List A) (i : ℕ) {a : A} → get_elem? xs i ≡ some a → i < length xs
get_elem?-lt [] i h = absurd (ground (arith, h))
get_elem?-lt (x ∷ xs) zero h = omega arith
get_elem?-lt (x ∷ xs) (suc i) h = omega (arith, get_elem?-lt xs i h)

get_elem?-written :
    (fetch : ℕ → Outcome Str ℕ) (results : List Result) (order : List ℕ) (i n : ℕ)
    → i < length results
    → get_elem? order n ≡ some i
    → get_elem? (written fetch results order) i ≡ some (result_of (fetch i))
unfolding written
get_elem?-written fetch results [] i n h at = absurd (ground (arith, at))
get_elem?-written fetch results (j ∷ order) i zero h at =
    let e : i ≡ j = ground (arith, at) in
    let (old, was) = get_elem?-some results i h in
    written_stays fetch (set results j (result_of (fetch j))) order i (
      subst (λ k. get_elem? (set results k (result_of (fetch k))) i ≡ some (result_of (fetch i))) e
        (get_elem?-set_self results i (result_of (fetch i)) was))
get_elem?-written fetch results (j ∷ order) i (suc n) h at =
    get_elem?-written fetch (set results j (result_of (fetch j))) order i n
      (subst (λ n. i < n) (sym (length-set results j (result_of (fetch j)))) h) at

-- Lists that have the same elements at the same places.
same_elements :
    {A : Type 0} (xs ys : List A)
    → length xs ≡ length ys
    → ((i : ℕ) → i < length xs → get_elem? xs i ≡ get_elem? ys i)
    → xs ≡ ys
same_elements [] [] e h = refl
same_elements [] (y ∷ ys) e h = absurd (omega arith)
same_elements (x ∷ xs) [] e h = absurd (omega arith)
same_elements (x ∷ xs) (y ∷ ys) e h =
    let first : some x ≡ some y = h 0 (omega arith) in
    let rest = same_elements xs ys (omega (arith, e)) (λ i le. h (suc i) (omega (arith, le))) in
    ground (arith, first, rest)

pub gather_lem :
    (fetch : ℕ → Outcome Str ℕ) (calls : ℕ) (order : List ℕ)
    → AllRun calls order
    → (length (gather fetch calls order) ≡ calls)
      × ((i : ℕ) → i < calls → get_elem? (gather fetch calls order) i ≡ some (result_of (fetch i)))
unfolding gather written
gather_lem fetch calls order all =
    let start = replicate calls (record { status = 0; failure = [] }) in
    let long : length start ≡ calls =
      length-replicate calls (record { status = 0; failure = [] }) in
    (
      length-written fetch start order ∙ long,
      λ i h.
          let (n, at) = all i h in
          get_elem?-written fetch start order i n (subst (λ k. i < k) (sym long) h) at,
    )

chain_status_lem :
    (rs : List Result)
    → ((chain_status rs ≡ 200) × All (λ r. r.status ≡ 200) rs)
      ⊎ ((chain_status rs ≡ 502)
          × (i : ℕ) × (r : Result) × (get_elem? rs i ≡ some r)
          × (r.status ≢ 200))
unfolding chain_status
chain_status_lem [] = inl (refl, tt)
chain_status_lem (r ∷ rs) = elim (ℕ_discrete r.status 200) [
  | yes e ↦ elim (chain_status_lem rs) [
    | inl (ok_rest, all) ↦ inl (ground (arith, ok_rest, e), (e, all))
    | inr (bad, i, q, at, ne) ↦ inr (ground (arith, bad, e), suc i, q, at, ne)
  ]
  | no ne ↦ inr (ground (arith, ne), 0, r, refl, ne)
]

abbrev pub calls_of : (Str → Str) → ℕ
calls_of query = pos_part (clamp_query_int query (codes "calls") (pos 1) max_chain_calls)

abbrev pub url_of : Config → (Str → Str) → Str
url_of cfg query =
    cfg.worker_url
    ++ (codes "/work?ms=" ++ decimal_ℤ (clamp_query_int query (codes "ms") (pos 0) max_work_ms))

result_of-ok : (o : Outcome Str ℕ) → (result_of o).status ≡ 200 → o ≡ ok 200
unfolding result_of
result_of-ok (ok n) e = ap ok e
result_of-ok (err m) e = absurd (omega (arith, e))

result_of-200 :
    (o : Outcome Str ℕ) {r : Result} → o ≡ ok 200 → some (result_of o) ≡ some r → r.status ≡ 200
unfolding result_of
result_of-200 (ok n) e same = ground (arith, e, same)
result_of-200 (err m) e same = absurd (ground (arith, e))

gathered_lem :
    (fetch : ℕ → Outcome Str ℕ) (calls : ℕ) (order : List ℕ)
    → AllRun calls order
    → ((chain_status (gather fetch calls order) ≡ 200) × ((i : ℕ) → i < calls → fetch i ≡ ok 200))
      ⊎ ((chain_status (gather fetch calls order) ≡ 502)
          × (i : ℕ) × (i < calls)
          × (fetch i ≢ ok 200))
gathered_lem fetch calls order all =
    let rs = gather fetch calls order in
    let (long, at) = gather_lem fetch calls order all in
    elim (chain_status_lem rs) [
      | inl (fine, each) ↦ inl (
        fine,
        λ i h. result_of-ok (fetch i) (All-get_elem? (λ r. r.status ≡ 200) rs i each (at i h)),
      )
      | inr (bad, i, r, found, ne) ↦
          let h : i < calls = subst (λ n. i < n) long (get_elem?-lt rs i found) in
          inr (bad, i, h, λ fine. ne (result_of-200 (fetch i) fine (sym (at i h) ∙ found)))
    ]

-- `handleChain` with a worker makes one to eight calls. If their URL is refused, the process ends.
-- Otherwise it answers 200 if the worker answers each call with 200, and 502 if some call fails or is
-- answered otherwise, in whatever order they end.
pub handle_chain_lem :
    (send : Str → Option (ℕ → Outcome Str ℕ)) (order : List ℕ) (cfg : Config) (query : Str → Str)
    → cfg.worker_url ≢ []
    → AllRun (calls_of query) order
    → (1 ≤ calls_of query)
      × (calls_of query ≤ 8)
      × (((send (url_of cfg query) ≡ none) × (handle_chain send order cfg query ≡ none))
          ⊎ ((fetch : ℕ → Outcome Str ℕ) × (resp : Response) × (send (url_of cfg query)
                ≡ some fetch)
              × (handle_chain send order cfg query ≡ some resp)
              × (((resp.status ≡ 200) × ((i : ℕ) → i < calls_of query → fetch i ≡ ok 200))
                  ⊎ ((resp.status ≡ 502) × (i : ℕ) × (i < calls_of query) × (fetch i ≢ ok 200)))))
unfolding handle_chain write_json
handle_chain_lem send order cfg query named all =
    let calls = clamp_query_int query (codes "calls") (pos 1) max_chain_calls in
    let (low, high) =
      clamp_query_int-range query (codes "calls") (pos 1) max_chain_calls (omega arith)
        (inl refl) in
    (
      omega (arith, low),
      pos_part-le calls 8 high,
      elim (Option-cases (send (url_of cfg query))) [
        | inl refused ↦ inl (
          refused,
          rw (handle_chain, refused) (if_neg (Str-discrete cfg.worker_url []) named _ _),
        )
        | inr (fetch, sent) ↦
            let rs = gather fetch (calls_of query) order in
            inr (
              fetch,
              write_json (chain_status rs) (chained cfg.role calls rs),
              sent,
              rw (handle_chain, sent) (if_neg (Str-discrete cfg.worker_url []) named _ _),
              gathered_lem fetch (calls_of query) order all,
            )
      ],
    )

-- `handleChain` does the same in whatever order the calls end.
pub handle_chain-order :
    (send : Str → Option (ℕ → Outcome Str ℕ)) (order other : List ℕ) (cfg : Config)
    (query : Str → Str)
    → AllRun (calls_of query) order
    → AllRun (calls_of query) other
    → handle_chain send order cfg query ≡ handle_chain send other cfg query
unfolding handle_chain
handle_chain-order send order other cfg query all all' =
    let calls = calls_of query in
    elim (Option-cases (send (url_of cfg query))) [
      | inl refused ↦ rw (handle_chain, refused) refl
      | inr (fetch, sent) ↦
          let (long, at) = gather_lem fetch calls order all in
          let (long', at') = gather_lem fetch calls other all' in
          let same : gather fetch calls order ≡ gather fetch calls other =
            same_elements (gather fetch calls order) (gather fetch calls other) (long ∙ sym long')
              (λ i h. let h' : i < calls = subst (λ n. i < n) long h in at i h' ∙ sym (at' i h')) in
          rw (handle_chain, sent, same) refl
    ]
