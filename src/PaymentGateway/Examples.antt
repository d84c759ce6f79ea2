-- ===== src/PaymentGateway/Examples.antt =====
-- financial/paymentgateway/paymentgateway.go: the source's own examples, and the theorem at one.
use gopkg.Common.{◌≡◌, refl, [], ok, err}
use gopkg.Common.Text.{codes}
use gopkg.PaymentGateway.{
  empty_path, no_trailing_segment, build_callback_url_with_reference, extract_reference_from_path,
}
use gopkg.PaymentGateway.Callback.{Free, extract-build}

plain :
    build_callback_url_with_reference (codes "https://x/cb") (codes "abc")
    ≡ codes "https://x/cb/abc"
unfolding build_callback_url_with_reference
plain = refl

with_query :
    build_callback_url_with_reference (codes "https://x/cb/?a=1") (codes "abc")
    ≡ codes "https://x/cb/abc?a=1"
unfolding build_callback_url_with_reference
with_query = refl

no_base : build_callback_url_with_reference (codes "") (codes "abc") ≡ []
unfolding build_callback_url_with_reference
no_base = refl

only_slashes : extract_reference_from_path (codes "//") ≡ err empty_path
unfolding extract_reference_from_path
only_slashes = refl

only_query : extract_reference_from_path (codes "/?a") ≡ err no_trailing_segment
unfolding extract_reference_from_path
only_query = refl

abc_Free : Free 47 (codes "abc") × Free 63 (codes "abc")
unfolding Free
abc_Free = ((refl, (refl, (refl, tt))), (refl, (refl, (refl, tt))))

extract-build_example :
    extract_reference_from_path
      (build_callback_url_with_reference (codes "https://x/cb/?a=1/") (codes "abc"))
    ≡ ok (codes "abc")
extract-build_example =
    extract-build (codes "https://x/cb/?a=1/") (codes "abc") refl refl abc_Free.0 abc_Free.1
