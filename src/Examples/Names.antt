-- ===== src/Examples/Names.antt =====
-- Branch names of src/core/naming/index.ts.
use vcode.Base.{◌≡◌, refl}
use vcode.Naming.{feature_branch_name, task_branch_name}

naming_test : feature_branch_name "f-7" "--Add  OAuth 2.0 Login!" ≡ "feat-add-oauth-2-0-login-7"
unfolding feature_branch_name
naming_test = refl

task_naming_test : task_branch_name "f-7" "Login" "t-12" ≡ "feat-login-7-12"
unfolding task_branch_name
task_naming_test = refl
