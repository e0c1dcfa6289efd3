-- ===== src/Queries/Clients.antt =====
-- The query clients: `makeQueryClient`, `getQueryClient` and `QueryProvider` of
-- web/src/lib/react-query.tsx. A client is the number of the call that made it.
use go_grpc_microservices.Prelude.{
  ℕ, zero, suc, ◌*◌, ◌≤◌, ◌≡◌, refl, Bool, true, false, ◌||◌, Option, none, some, List, [], ◌∷◌,
  All, Option-cases, inl, inr, subst, arith,
}

-- `defaultOptions`
pub record DefaultOptions : Type 0 where
  pub stale_time : ℕ
  pub gc_time : ℕ
  pub retry : ℕ
  pub refetch_on_window_focus : Bool
  pub throw_on_error : Bool
  pub mutation_retry : ℕ

abbrev default_options : DefaultOptions
default_options = record {
  stale_time = 60 * 1000;
  gc_time = 5 * 60 * 1000;
  retry = 1;
  refetch_on_window_focus = false;
  throw_on_error = false;
  mutation_retry = 0;
}

pub record QueryClient : Type 0 where
  pub made : ℕ
  pub options : DefaultOptions

-- `QueryState.status` of the library
pub data QueryStatus : Type 0 where
  pending error success : QueryStatus

-- `shouldDehydrateQuery`; the library's own test is a parameter
unfoldable pub should_dehydrate_query : (QueryStatus → Bool) → QueryStatus → Bool
should_dehydrate_query by_default status =
    by_default status || (elim status [ pending ↦ true | _ ↦ false ])

-- The module's variable, and how many clients were made.
pub record Clients : Type 0 where
  pub browser_query_client : Option QueryClient
  pub fresh : ℕ

make_query_client : Clients → QueryClient × Clients
make_query_client c =
    (record { made = c.fresh; options = default_options }, record c { fresh = suc c.fresh })

get_query_client : Bool → Clients → QueryClient × Clients
unfolding make_query_client
get_query_client true c = make_query_client c
get_query_client false c = elim c.browser_query_client [
  | some q ↦ (q, c)
  | none ↦ let r = make_query_client c in (r.0, record r.1 { browser_query_client = some r.0 })
]

-- `QueryProvider`, rendered with the state of its hook, if it was rendered before
query_provider : Bool → Option QueryClient → Clients → QueryClient × Clients
unfolding get_query_client
query_provider is_server (some q) c = (q, c)
query_provider is_server none c = get_query_client is_server c

-- One request or page after another renders the provider anew.
abbrev rendered : Bool → ℕ → Clients → List QueryClient
rendered is_server zero c = []
rendered is_server (suc n) c =
    let r = query_provider is_server none c in r.0 ∷ rendered is_server n r.1

-- Clients made one after the other, from a number on: none is another one.
abbrev AreApart : ℕ → List QueryClient → Type 0
AreApart n [] = Unit
AreApart n (q ∷ qs) = (n ≤ q.made) × AreApart (suc q.made) qs

-- On the server no two requests get the same client, and none gets one that was there before.
server_apart : (n : ℕ) (c : Clients) → AreApart c.fresh (rendered true n c)
unfolding query_provider get_query_client make_query_client
server_apart zero c = tt
server_apart (suc n) c = (omega arith, server_apart n (make_query_client c).1)

browser_kept :
    (c : Clients)
    → (get_query_client false (get_query_client false c).1).0 ≡ (get_query_client false c).0
unfolding get_query_client make_query_client
browser_kept c = elim (Option-cases c.browser_query_client) [ inl e ↦ rw e | inr (q, e) ↦ rw e ]

-- In the browser all get one and the same.
browser_same :
    (n : ℕ) (c : Clients) → All (λ q. q ≡ (get_query_client false c).0) (rendered false n c)
unfolding query_provider
browser_same zero c = tt
browser_same (suc n) c = (
  refl,
  subst (λ x. All (λ q. q ≡ x) (rendered false n (get_query_client false c).1)) (browser_kept c)
      (browser_same n (get_query_client false c).1),
)
