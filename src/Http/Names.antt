-- ===== src/Http/Names.antt =====
-- The names of the methods and of the status codes, in both directions.
use cczoecpp.Common.Text.{same_bytes, same_bytes_lem}
use cczoecpp.Common.{
  ℕ, ◌≡◌, refl, sym, ap, ◌∙◌, List, [], ◌∷◌, some, arith, Bool-cases, inl, inr, All,
}
use cczoecpp.Http.Tables.{
  HttpMethod, method_table, first_match, string_to_http_method, http_method_to_string,
}

-- Every method is read back from its name: no name stands for two methods.
pub method_round_trip : (m : HttpMethod) → string_to_http_method (http_method_to_string m) ≡ some m
unfolding string_to_http_method http_method_to_string first_match
method_round_trip HttpMethod.delete = refl
method_round_trip HttpMethod.get = refl
method_round_trip HttpMethod.head = refl
method_round_trip HttpMethod.post = refl
method_round_trip HttpMethod.put = refl
method_round_trip HttpMethod.connect = refl
method_round_trip HttpMethod.options = refl
method_round_trip HttpMethod.trace = refl
method_round_trip HttpMethod.copy = refl
method_round_trip HttpMethod.lock = refl
method_round_trip HttpMethod.mkcol = refl
method_round_trip HttpMethod.move = refl
method_round_trip HttpMethod.propfind = refl
method_round_trip HttpMethod.proppatch = refl
method_round_trip HttpMethod.search = refl
method_round_trip HttpMethod.unlock = refl
method_round_trip HttpMethod.bind = refl
method_round_trip HttpMethod.rebind = refl
method_round_trip HttpMethod.unbind = refl
method_round_trip HttpMethod.acl = refl
method_round_trip HttpMethod.report = refl
method_round_trip HttpMethod.mkactivity = refl
method_round_trip HttpMethod.checkout = refl
method_round_trip HttpMethod.merge = refl
method_round_trip HttpMethod.msearch = refl
method_round_trip HttpMethod.notify = refl
method_round_trip HttpMethod.subscribe = refl
method_round_trip HttpMethod.unsubscribe = refl
method_round_trip HttpMethod.patch = refl
method_round_trip HttpMethod.purge = refl
method_round_trip HttpMethod.mkcalendar = refl
method_round_trip HttpMethod.link = refl
method_round_trip HttpMethod.unlink = refl
method_round_trip HttpMethod.source = refl

-- The table has the name of each method.
Named : HttpMethod × List ℕ → Type 0
Named (m, text) = http_method_to_string m ≡ text

first_match_lem :
    (table : List (HttpMethod × List ℕ)) (name : List ℕ) (m : HttpMethod)
    → All Named table
    → first_match table name ≡ some m
    → http_method_to_string m ≡ name
unfolding first_match Named
first_match_lem [] name m all h = ground arith
first_match_lem ((m', text) ∷ table) name m (named, all) h =
    elim (Bool-cases (same_bytes name text)) [
      | inl k ↦
          (let e : m' ≡ m = ground arith in
            ap http_method_to_string (sym e) ∙ named ∙ sym (same_bytes_lem name text k))
      | inr k ↦ first_match_lem table name m all (ground arith)
    ]

all-Named : All Named method_table
unfolding Named http_method_to_string
all-Named = (
  refl,
  (
    refl,
    (
      refl,
      (
        refl,
        (
          refl,
          (
            refl,
            (
              refl,
              (
                refl,
                (
                  refl,
                  (
                    refl,
                    (
                      refl,
                      (
                        refl,
                        (
                          refl,
                          (
                            refl,
                            (
                              refl,
                              (
                                refl,
                                (
                                  refl,
                                  (
                                    refl,
                                    (
                                      refl,
                                      (
                                        refl,
                                        (
                                          refl,
                                          (
                                            refl,
                                            (
                                              refl,
                                              (
                                                refl,
                                                (
                                                  refl,
                                                  (
                                                    refl,
                                                    (
                                                      refl,
                                                      (
                                                        refl,
                                                        (
                                                          refl,
                                                          (
                                                            refl,
                                                            (refl, (refl, (refl, (refl, tt)))),
                                                          ),
                                                        ),
                                                      ),
                                                    ),
                                                  ),
                                                ),
                                              ),
                                            ),
                                          ),
                                        ),
                                      ),
                                    ),
                                  ),
                                ),
                              ),
                            ),
                          ),
                        ),
                      ),
                    ),
                  ),
                ),
              ),
            ),
          ),
        ),
      ),
    ),
  ),
)

-- A text that is read as a method is the name of that method.
pub string_to_http_method_lem :
    (name : List ℕ) (m : HttpMethod)
    → string_to_http_method name ≡ some m
    → http_method_to_string m ≡ name
unfolding string_to_http_method
string_to_http_method_lem name m h = first_match_lem method_table name m all-Named h
