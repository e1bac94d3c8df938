-- ===== src/Rhp/Registry/Accepts.antt =====
-- The accept registry of crates/rhpv2/src/client.rs: a first-in first-out queue for each listener.
use pdn_libax.Prelude.{
  ℕ, zero, suc, ◌≡◌, refl, ap, ◌∙◌, List, [], ◌∷◌, ◌++◌, append_assoc, append-nil, map, Option,
  some, arith, ◌==◌, if◌then◌else◌, length, Table, lookup, lookup-insert, lookup-adjust,
}
use pdn_libax.Rhp.Registry.{AcceptInfo, queue_of, push_accept, try_accept}

-- The children that wait on a listener, oldest first.
abbrev pub waiting : ℕ → Table (List AcceptInfo) → List AcceptInfo
waiting listener m = queue_of (lookup listener m)

pub waiting-push :
    (l k : ℕ) (info : AcceptInfo) (m : Table (List AcceptInfo))
    → waiting k (push_accept l info m) ≡ (if l == k then waiting k m ++ info ∷ [] else waiting k m)
unfolding push_accept
waiting-push l k info m = ground (arith, lookup-insert l k (queue_of (lookup l m) ++ info ∷ []) m)

-- The reader thread's pushes of several children.
unfoldable pub push_all : List (ℕ × AcceptInfo) → Table (List AcceptInfo) → Table (List AcceptInfo)
unfolding push_accept
push_all [] m = m
push_all ((l, info) ∷ pushes) m = push_all pushes (push_accept l info m)

-- The children of one listener, in the order of the pushes.
abbrev pub pushed_on : ℕ → List (ℕ × AcceptInfo) → List AcceptInfo
pushed_on k [] = []
pushed_on k ((l, info) ∷ pushes) = if l == k then info ∷ pushed_on k pushes else pushed_on k pushes

-- `n` calls of `try_accept` on one listener.
unfoldable pub accept_all :
    ℕ → ℕ → Table (List AcceptInfo) → List (Option AcceptInfo) × Table (List AcceptInfo)
unfolding try_accept
accept_all zero l m = ([], m)
accept_all (suc n) l m =
    let (r, m') = try_accept l m in let (rs, m'') = accept_all n l m' in (r ∷ rs, m'')

waiting-push_all :
    (k : ℕ) (pushes : List (ℕ × AcceptInfo)) (m : Table (List AcceptInfo))
    → waiting k (push_all pushes m) ≡ waiting k m ++ pushed_on k pushes
unfolding push_all
waiting-push_all k [] m = ground (arith, append-nil (waiting k m))
waiting-push_all k ((l, info) ∷ pushes) m = ground (
  arith,
  waiting-push_all k pushes (push_accept l info m),
  waiting-push l k info m,
  append_assoc (waiting k m) (info ∷ []) (pushed_on k pushes),
)

try_accept_oldest :
    (l : ℕ) (info : AcceptInfo) (q : List AcceptInfo) (m : Table (List AcceptInfo))
    → waiting l m ≡ info ∷ q
    → ((try_accept l m).0 ≡ some info) × (waiting l (try_accept l m).1 ≡ q)
unfolding try_accept
try_accept_oldest l info q m e =
    rw e (refl, ground (arith, lookup-adjust l l (λ (x : List AcceptInfo). q) m))

accept_all-waiting :
    (l : ℕ) (q : List AcceptInfo) (m : Table (List AcceptInfo))
    → waiting l m ≡ q
    → ((accept_all (length q) l m).0 ≡ map some q) × (waiting l (accept_all (length q) l m).1 ≡ [])
unfolding accept_all
accept_all-waiting l [] m e = (refl, e)
accept_all-waiting l (info ∷ q) m e =
    let (first, left) = try_accept_oldest l info q m e in
    let (rest, empty) = accept_all-waiting l q (try_accept l m).1 left in (cc (first, rest), empty)

-- Children that the reader pushes, on any listeners in any order, are accepted on each listener in the
-- order of its own pushes, none lost and none twice: with nothing queued before, as many accepts as
-- there were pushes return just these, and leave the queue empty.
pub accept-push :
    (l : ℕ) (pushes : List (ℕ × AcceptInfo)) (m : Table (List AcceptInfo))
    → waiting l m ≡ []
    → let n = length (pushed_on l pushes) in
      ((accept_all n l (push_all pushes m)).0 ≡ map some (pushed_on l pushes))
      × (waiting l (accept_all n l (push_all pushes m)).1 ≡ [])
accept-push l pushes m e =
    accept_all-waiting l (pushed_on l pushes) (push_all pushes m)
      (waiting-push_all l pushes m ∙ ap (λ q. q ++ pushed_on l pushes) e)
