-- ===== src/Site/Pages/Images.antt =====
-- web/lib/og.tsx and the files opengraph-image.tsx of web/app: the images for social networks. The
-- drawing is the library's; the styles of the elements are left out.
use agentic_warden.Prelude.{ℕ, String, [], ◌++◌, Text, units, text_eq, nat_eq}
use agentic_warden.Site.Seo.{site_name}
use agentic_warden.View.{Html, el, show}

-- `ogSize`
pub record Size : Type 0 where
  pub width : ℕ
  pub height : ℕ

unfoldable pub og_size : Size
og_size = record { width = 1200; height = 630 }

pub record SocialImage : Type 0 where
  pub alt : Text
  pub size : Size
  pub content_type : Text
  pub title : Text
  pub subtitle : Text

-- What `renderOg` hands to the library.
unfoldable pub render_og : Text → Text → Html ⊥
unfolding site_name
render_og title subtitle = el "div" [] (
    el "div" [] (show site_name)
    ++ el "div" [] (el "div" [] (show title) ++ el "div" [] (show subtitle)))

abbrev image_of : String → String → String → SocialImage
image_of alt title subtitle = record {
  alt = units alt;
  size = og_size;
  content_type = units "image/png";
  title = units title;
  subtitle = units subtitle;
}

unfoldable pub home_image : SocialImage
unfolding og_size
home_image =
    image_of "Agentic Warden — one policy for your coding agents"
      "One policy for your coding agents" "Claude Code · Codex · Antigravity CLI"

unfoldable pub product_image : SocialImage
unfolding og_size
product_image =
    image_of "Agentic Warden product overview" "Govern coding agents like the rest of your fleet"
      "Targeting · Signed bundles · SCIM · Sync"

unfoldable pub pricing_image : SocialImage
unfolding og_size
pricing_image = image_of "Agentic Warden pricing" "Pricing" "Team · Enterprise · Self-hosted"

unfoldable pub demo_image : SocialImage
unfolding og_size
demo_image =
    image_of "Request an Agentic Warden demo" "Request a demo" "See it against your own policy"

unfoldable pub draw : SocialImage → Html ⊥
unfolding render_og
draw i = render_og i.title i.subtitle
